-- ===== src/SafeJoin/Inside.antt =====
-- FilepathSafeJoin never leaves the directory (pkg/util/safejoin.go, pkg/repository/update.go).

use porch.Common.{
  true, false, ◌≡◌, ◌⊎◌, refl, sym, ap, ◌∙◌, subst, arith, Text, List, [], ◌∷◌, ◌++◌, eqb, eqb→eq,
  eqb_refl, codes, has_prefix, has_prefix-append, Option, none, some, some-injective, Bool-cases,
  inl, inr,
}
use porch.Names.Paths.{slash, join_with, clean, file_join, is_rooted}
use porch.SafeJoin.{
  elements, ups, rel_elements, joined, rel, is_refused, checked, filepath_safe_join, without_dot,
  same_bool,
}

-- A path whose first element is ".." is refused.
abbrev IsUp : List Text → Type 0
IsUp [] = ⊥
IsUp (t ∷ ts) = t ≡ codes ".."

up-refused : (r : Text) (es : List Text) → IsUp es → is_refused r (join_with slash es) ≡ true
unfolding join_with
up-refused r [] u = elim u [ ]
up-refused r (t ∷ []) u =
    let e = ap (λ s. eqb s (codes "..")) u ∙ eqb_refl (codes "..") in ground arith
up-refused r (t ∷ v ∷ ts) u =
    let e =
      ap (λ s. has_prefix (codes "../") (s ++ (slash ∷ join_with slash (v ∷ ts)))) u
      ∙ has_prefix-append (codes "../") (join_with slash (v ∷ ts)) in
    ground arith

-- The relative path is what follows the base in the target, or goes up.
rel_elements-rest :
    (bs ts es : List Text) → rel_elements bs ts ≡ some es → (ts ≡ bs ++ es) ⊎ IsUp es
unfolding rel_elements
rel_elements-rest [] ts es h = inl (some-injective ts es h)
rel_elements-rest (b ∷ bs) [] es h = elim (Bool-cases (eqb b (codes ".."))) [
  | inl e ↦ cc (simp e at h)
  | inr e ↦ inr (subst IsUp (some-injective (ups (b ∷ bs)) es (simp e at h)) refl)
]
rel_elements-rest (b ∷ bs) (t ∷ ts) es h = elim (Bool-cases (eqb b t)) [
  | inl e ↦ elim (rel_elements-rest bs ts es (simp e at h)) [
    | inl q ↦ inl (ap (λ l. t ∷ l) q ∙ ap (λ x. x ∷ (bs ++ es)) (sym (eqb→eq b t e)))
    | inr q ↦ inr q
  ]
  | inr e ↦ elim (Bool-cases (eqb b (codes ".."))) [
    | inl f ↦ cc (simp (e, f) at h)
    | inr f ↦ inr (subst IsUp (some-injective (ups (b ∷ bs) ++ t ∷ ts) es (simp (e, f) at h)) refl)
  ]
]

joined-inverse :
    (o : Option (List Text)) (q : Text)
    → joined o ≡ some q
    → (es : List Text) × (o ≡ some es) × (join_with slash es ≡ q)
joined-inverse none q h = cc
joined-inverse (some es) q h = (es, refl, some-injective (join_with slash es) q h)

checked-inverse :
    (r p q : Text) (o : Option Text)
    → checked r p o ≡ some q
    → (o ≡ some r) × (is_refused r r ≡ false) × (p ≡ q)
checked-inverse r p q none h = cc
checked-inverse r p q (some s) h = elim (Bool-cases (is_refused r s)) [
  | inl e ↦ cc (simp e at h)
  | inr e ↦
      let same : s ≡ r = eqb→eq s r (ground arith) in
      (ap some same, ap (is_refused r) (sym same) ∙ e, some-injective p q (simp e at h))
]

refused_here : (r : Text) → codes "." ≡ r → is_refused r r ≡ true
refused_here r e =
    let f = ap (λ s. eqb s (codes ".")) (sym e) ∙ eqb_refl (codes ".") in ground arith

rel-rest :
    (dir p r : Text)
    → rel dir p ≡ some r
    → is_refused r r ≡ false
    → (es : List Text) × (elements (clean p) ≡ elements (without_dot (clean dir)) ++ es)
      × (join_with slash es ≡ r)
unfolding rel
rel-rest dir p r h n = elim (Bool-cases (eqb (clean p) (clean dir))) [
  | inl e ↦ cc (n, refused_here r (some-injective (codes ".") r (simp e at h)))
  | inr e ↦
      elim (Bool-cases (same_bool (is_rooted (without_dot (clean dir))) (is_rooted (clean p)))) [
        | inr f ↦ cc (simp (e, f) at h)
        | inl f ↦
            let (es, g, j) =
              joined-inverse
                (rel_elements (elements (without_dot (clean dir))) (elements (clean p))) r
                (simp (e, f) at h) in
            elim (rel_elements-rest (elements (without_dot (clean dir))) (elements (clean p)) es
              g) [
                | inl q ↦ (es, q, j)
                | inr u ↦ cc (n, ap (is_refused r) (sym j), up-refused r es u)
              ]
      ]
]

-- A path that FilepathSafeJoin gives, cleaned, has the elements of the directory first, and after them
-- those that are joined to the relative path as it was given.
pub safe_join-inside :
    (dir relative p : Text)
    → filepath_safe_join dir relative ≡ some p
    → (es : List Text) × (elements (clean p) ≡ elements (without_dot (clean dir)) ++ es)
      × (join_with slash es ≡ relative)
unfolding filepath_safe_join
safe_join-inside dir relative p h =
    let q = clean (file_join dir relative) in
    let (r, n, e) = checked-inverse relative q p (rel dir q) h in
    rel-rest dir p relative (ap (rel dir) (sym e) ∙ r) n
