-- ===== src/SafeJoin/Cleaned.antt =====
-- The elements that path.Clean leaves.
use mathlib.Core.List.{reverse-append, append_assoc}
use porch.Common.{
  ℕ, Bool, true, false, not, ◌&&◌, ◌||◌, ◌≡◌, ◌⊎◌, refl, sym, ap, ◌∙◌, subst, arith, Text, List, [],
  ◌∷◌, ◌++◌, ◌==◌, ==_iff, eqb, eqb_refl, is_empty, codes, All, All-snoc, reverse, all, Bool-cases,
  inl, inr,
}
use porch.Names.Paths.{
  slash, split_on, join_with, parent, clean_element, clean_elements, cons_first,
}
use porch.Names.Segments.{FreeOf}

-- An element that a canonical path may have
unfoldable pub is_plain : Text → Bool
is_plain e = not (is_empty e) && (not (eqb e (codes ".")) && not (eqb e (codes "..")))

pub record IsElement (e : Text) : Type 0 where
  pub filled : is_empty e ≡ false
  pub no_slash : FreeOf slash e

AreFree-cons :
    (x : ℕ) (ps : List Text)
    → (x == slash) ≡ false
    → All (FreeOf slash) ps
    → All (FreeOf slash) (cons_first x ps)
AreFree-cons x [] h a = (ground arith, tt)
AreFree-cons x (p ∷ ps) h a = (ground (arith, a.0), a.1)

pub split_on-free : (s : Text) → All (FreeOf slash) (split_on slash s)
unfolding split_on
split_on-free [] = (refl, tt)
split_on-free (x ∷ s) = elim (Bool-cases (x == slash)) [
  | inl e ↦ simp e (refl, split_on-free s)
  | inr e ↦ simp e (AreFree-cons x (split_on slash s) e (split_on-free s))
]

join_with-cons :
    (x : ℕ) (ps : List Text) → join_with slash (cons_first x ps) ≡ x ∷ join_with slash ps
unfolding join_with
join_with-cons x [] = refl
join_with-cons x (p ∷ []) = refl
join_with-cons x (p ∷ q ∷ ps) = refl

join_with-empty_cons :
    (x : ℕ) (ps : List Text)
    → join_with slash ([] ∷ cons_first x ps) ≡ slash ∷ join_with slash (cons_first x ps)
unfolding join_with
join_with-empty_cons x [] = refl
join_with-empty_cons x (p ∷ ps) = refl

join_with-empty :
    (s : Text)
    → join_with slash ([] ∷ split_on slash s) ≡ slash ∷ join_with slash (split_on slash s)
unfolding split_on
join_with-empty [] = unfold join_with in refl
join_with-empty (x ∷ s) = elim (Bool-cases (x == slash)) [
  | inl e ↦ simp e (unfold join_with in refl)
  | inr e ↦ simp e (join_with-empty_cons x (split_on slash s))
]

pub join_with-split_on : (s : Text) → join_with slash (split_on slash s) ≡ s
unfolding split_on
join_with-split_on [] = unfold join_with in refl
join_with-split_on (x ∷ s) = elim (Bool-cases (x == slash)) [
  | inl e ↦ simp e (
      join_with-empty s
      ∙ ap (λ r. slash ∷ r) (join_with-split_on s)
      ∙ ap (λ (y : ℕ). y ∷ s) (sym ((==_iff x slash).0 e)))
  | inr e ↦ simp e (join_with-cons x (split_on slash s) ∙ ap (λ r. x ∷ r) (join_with-split_on s))
]

pub All-reverse : (P : Text → Type 0) (xs : List Text) → All P xs → All P (reverse xs)
All-reverse P [] a = tt
All-reverse P (x ∷ xs) a =
    subst (All P) (sym (reverse-append (x ∷ []) xs))
      (All-snoc P (reverse xs) x (All-reverse P xs a.1) a.0)

abbrev pub first : List Text → Text
first [] = []
first (x ∷ xs) = x

abbrev pub rest : List Text → List Text
rest [] = []
rest (x ∷ xs) = xs

parent-AreElements : (out : List Text) → All IsElement out → All IsElement (parent false out)
unfolding parent
parent-AreElements [] a = (record { filled = refl; no_slash = refl }, tt)
parent-AreElements (t ∷ ts) a = elim (Bool-cases (eqb t (codes ".."))) [
  | inl u ↦ simp u (record { filled = refl; no_slash = refl }, a)
  | inr u ↦ simp u a.1
]

-- Clean only puts elements.
pub clean_element-AreElements :
    (e : Text) (out : List Text)
    → FreeOf slash e
    → All IsElement out
    → All IsElement (clean_element false e out)
unfolding clean_element parent
clean_element-AreElements e out f a = elim (Bool-cases (is_empty e || eqb e (codes "."))) [
  | inl s ↦ simp s a
  | inr s ↦ elim (Bool-cases (eqb e (codes ".."))) [
    | inr u ↦ simp (s, u) ((record { filled = ground arith; no_slash = f }), a)
    | inl u ↦ simp (s, u) (parent-AreElements out a)
  ]
]

pub clean_elements-AreElements :
    (es out : List Text)
    → All (FreeOf slash) es
    → All IsElement out
    → All IsElement (clean_elements false es out)
unfolding clean_elements
clean_elements-AreElements [] out f a = a
clean_elements-AreElements (e ∷ es) out f a =
    clean_elements-AreElements es (clean_element false e out) f.1
      (clean_element-AreElements e out f.0 a)

-- Either all elements are plain, or the first one is "..".
abbrev pub IsShaped : List Text → Type 0
IsShaped out = (all is_plain out ≡ true) ⊎ ((front : List Text) × (out ≡ front ++ codes ".." ∷ []))

pub not_up : (e : Text) → is_plain e ≡ true → eqb e (codes "..") ≡ false
unfolding is_plain
not_up e h = ground arith

pub plain_of :
    (e : Text)
    → (is_empty e || eqb e (codes ".")) ≡ false
    → eqb e (codes "..") ≡ false
    → is_plain e ≡ true
unfolding is_plain
plain_of e h u = ground arith

IsShaped-rest :
    (t : Text) (ts front : List Text)
    → t ∷ ts ≡ front ++ codes ".." ∷ []
    → eqb t (codes "..") ≡ false
    → IsShaped ts
IsShaped-rest t ts [] q u = cc (ap first q, u, eqb_refl (codes ".."))
IsShaped-rest t ts (f ∷ fs) q u = inr (fs, ap rest q)

parent-IsShaped : (out : List Text) → IsShaped out → IsShaped (parent false out)
unfolding parent
parent-IsShaped [] h = inr ([], refl)
parent-IsShaped (t ∷ ts) (inl a) = elim (Bool-cases (eqb t (codes ".."))) [
  | inl u ↦ cc (not_up t (ground arith), u)
  | inr u ↦ simp u (inl (ground arith))
]
parent-IsShaped (t ∷ ts) (inr (front, q)) = elim (Bool-cases (eqb t (codes ".."))) [
  | inl u ↦ simp u (inr (codes ".." ∷ front, ap (λ l. codes ".." ∷ l) q))
  | inr u ↦ simp u (IsShaped-rest t ts front q u)
]

IsShaped-cons : (e : Text) (out : List Text) → is_plain e ≡ true → IsShaped out → IsShaped (e ∷ out)
IsShaped-cons e out p (inl a) = inl (ground arith)
IsShaped-cons e out p (inr (front, q)) = inr (e ∷ front, ap (λ l. e ∷ l) q)

clean_element-IsShaped :
    (e : Text) (out : List Text) → IsShaped out → IsShaped (clean_element false e out)
unfolding clean_element
clean_element-IsShaped e out h = elim (Bool-cases (is_empty e || eqb e (codes "."))) [
  | inl s ↦ simp s h
  | inr s ↦ elim (Bool-cases (eqb e (codes ".."))) [
    | inr u ↦ simp (s, u) (IsShaped-cons e out (plain_of e s u) h)
    | inl u ↦ simp (s, u) (parent-IsShaped out h)
  ]
]

all_snoc :
    (xs : List Text) (x : Text) → all is_plain (xs ++ x ∷ []) ≡ (all is_plain xs && is_plain x)
all_snoc [] x = ground arith
all_snoc (y ∷ xs) x = ground (arith, all_snoc xs x)

pub all-reverse : (xs : List Text) → all is_plain (reverse xs) ≡ all is_plain xs
all-reverse [] = refl
all-reverse (x ∷ xs) =
    ap (all is_plain) (reverse-append (x ∷ []) xs)
    ∙ all_snoc (reverse xs) x
    ∙ ground (arith, all-reverse xs)

clean_element_plain :
    (e : Text) (out : List Text) → is_plain e ≡ true → clean_element false e out ≡ e ∷ out
unfolding clean_element is_plain
clean_element_plain e out h = ground arith

pub clean_elements_plain :
    (es out : List Text) → all is_plain es ≡ true → clean_elements false es out ≡ reverse es ++ out
unfolding clean_elements
clean_elements_plain [] out h = refl
clean_elements_plain (e ∷ es) out h = rw (clean_element_plain e out (ground arith)) (
    clean_elements_plain es (e ∷ out) (ground arith)
    ∙ sym
        (ap (λ l. l ++ out) (reverse-append (e ∷ []) es) ∙ append_assoc (reverse es) (e ∷ []) out))

pub clean_elements-IsShaped :
    (es out : List Text) → IsShaped out → IsShaped (clean_elements false es out)
unfolding clean_elements
clean_elements-IsShaped [] out h = h
clean_elements-IsShaped (e ∷ es) out h =
    clean_elements-IsShaped es (clean_element false e out) (clean_element-IsShaped e out h)
