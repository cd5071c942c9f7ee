-- ===== src/SafeJoin/Relative.antt =====
-- filepath.Rel from the directory "." (pkg/util/safejoin.go).

use porch.Common.{
  false, not, ◌≡◌, refl, sym, ap, ◌∙◌, Text, List, [], ◌∷◌, ◌++◌, eqb, eqb→eq, is_empty, codes, All,
  reverse, keep_if, Option, none, some, Bool-cases, inl, inr, if◌then◌else◌,
}
use porch.Names.Paths.{
  slash, split_on, join_with, clean_element, clean_elements, clean, file_join, finish, is_rooted,
}
use porch.Names.Segments.{
  FreeOf, split_on-join_with, split_on-part, join_with-starts, starts_with_byte,
}
use porch.SafeJoin.{elements, rel_elements, joined, rel, same_bool}
use porch.SafeJoin.Cleaned.{IsElement, All-reverse, split_on-free, clean_elements-AreElements}

-- The elements of a cleaned path that does not begin with a slash
abbrev pub cleaned : Text → List Text
cleaned p = reverse (clean_elements false (split_on slash p) [])

pub clean_relative :
    (p : Text) → is_rooted p ≡ false → clean p ≡ finish false (join_with slash (cleaned p))
unfolding clean
clean_relative p h = rw h refl

pub cleaned-AreElements : (p : Text) → All IsElement (cleaned p)
cleaned-AreElements p =
    All-reverse IsElement (clean_elements false (split_on slash p) [])
      (clean_elements-AreElements (split_on slash p) [] (split_on-free p) tt)

pub All-free : (ts : List Text) → All IsElement ts → All (FreeOf slash) ts
All-free [] a = tt
All-free (t ∷ ts) a = (a.0.no_slash, All-free ts a.1)

pub joined-relative :
    (t : Text) (ts : List Text)
    → All IsElement (t ∷ ts)
    → (is_rooted (join_with slash (t ∷ ts)) ≡ false)
      × (finish false (join_with slash (t ∷ ts)) ≡ join_with slash (t ∷ ts))
joined-relative t ts a =
    started (join_with slash (t ∷ ts)) (join_with-starts slash slash t ts a.0.filled a.0.no_slash)
  where
    started :
        (s : Text)
        → (starts_with_byte slash s ≡ false) × (is_empty s ≡ false)
        → (is_rooted s ≡ false) × (finish false s ≡ s)
    started [] h = (refl, cc (h.1))
    started (x ∷ s) h = (h.0, refl)

pub keep_filled : (ts : List Text) → All IsElement ts → keep_if (λ e. not (is_empty e)) ts ≡ ts
keep_filled [] a = refl
keep_filled (t ∷ ts) a = simp (a.0.filled) (ap (λ l. t ∷ l) (keep_filled ts a.1))

pub elements-joined :
    (t : Text) (ts : List Text)
    → All IsElement (t ∷ ts)
    → elements (join_with slash (t ∷ ts)) ≡ t ∷ ts
elements-joined t ts a =
    ap (keep_if (λ e. not (is_empty e))) (split_on-join_with slash t ts (All-free (t ∷ ts) a))
    ∙ keep_filled (t ∷ ts) a

-- What filepath.Rel gives from ".", for the elements that Clean leaves of the target
abbrev pub rel_from : List Text → Option Text
rel_from [] = some (codes ".")
rel_from (t ∷ ts) = some (join_with slash (t ∷ ts))

abbrev pub rel_here : Text → Option Text
rel_here t =
    if eqb t (codes ".")
    then some (codes ".")
    else if not (same_bool false (is_rooted t))
    then none
    else joined (rel_elements [] (elements t))

pub rel_here-from :
    (ts : List Text) → All IsElement ts → rel_here (finish false (join_with slash ts)) ≡ rel_from ts
rel_here-from [] a = unfold join_with eqb in refl
rel_here-from (t ∷ ts) a =
    let (r, f) = joined-relative t ts a in
    elim (Bool-cases (eqb (join_with slash (t ∷ ts)) (codes "."))) [
      | inl e ↦ rw f (simp e (ap some (sym (eqb→eq (join_with slash (t ∷ ts)) (codes ".") e))))
      | inr e ↦ rw f (simp (e, r, elements-joined t ts a) (unfold rel_elements in refl))
    ]

pub rel-relative : (p : Text) → is_rooted p ≡ false → rel (codes ".") p ≡ rel_from (cleaned p)
unfolding rel
rel-relative p h =
    unfold clean eqb in
    ap rel_here (clean_relative p h) ∙ rel_here-from (cleaned p) (cleaned-AreElements p)

pub finish-relative :
    (ts : List Text) → All IsElement ts → is_rooted (finish false (join_with slash ts)) ≡ false
finish-relative [] a = unfold join_with in refl
finish-relative (t ∷ ts) a = rw (joined-relative t ts a).1 (joined-relative t ts a).0

pub clean-relative : (p : Text) → is_rooted p ≡ false → is_rooted (clean p) ≡ false
clean-relative p h = rw (clean_relative p h) (finish-relative (cleaned p) (cleaned-AreElements p))

pub file_join-here :
    (k : Text) → file_join (codes ".") k ≡ finish false (join_with slash (cleaned k))
unfolding file_join
file_join-here k =
    clean_relative (codes "." ++ (slash ∷ k)) refl
    ∙ ap (λ es. finish false (join_with slash (reverse (clean_elements false es []))))
        (split_on-part slash (codes ".") k refl)
    ∙ unfold clean_element eqb in refl
