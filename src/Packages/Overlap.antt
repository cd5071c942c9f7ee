-- ===== src/Packages/Overlap.antt =====
-- Which package paths conflict (pkg/repository/util.go).
use mathlib.Core.List.{append_assoc}
use porch.Common.{
  true, false, ◌≡◌, ◌≢◌, ◌↔◌, ◌⊎◌, inl, inr, refl, sym, ap, subst, ◌∙◌, arith, Text, eqb, eqb_iff,
  has_prefix, has_prefix-append, has_prefix-find, [], ◌∷◌, ◌++◌, Bool-cases, length, length-append,
}
use porch.Names.Paths.{slash}
use porch.Packages.{paths_overlap}

-- The path `p` lies below `q`: it is `q`, a slash and something more.
abbrev pub IsBelow : Text → Text → Type 0
IsBelow p q = (r : Text) × (p ≡ q ++ slash ∷ r)

split_slash : (p q r : Text) → p ++ slash ∷ [] ≡ q ++ slash ∷ r → (p ≡ q) ⊎ IsBelow p q
split_slash [] [] r h = inl refl
split_slash [] (y ∷ q) r h = absurd (no_end q (ground arith))
  where
    no_end : (a : Text) → ¬ ([] ≡ a ++ slash ∷ r)
    no_end [] e = cc e
    no_end (z ∷ a) e = cc e
split_slash (x ∷ p) [] r h = inr (p, ground arith)
split_slash (x ∷ p) (y ∷ q) r h = elim (split_slash p q r (ground arith)) [
  | inl e ↦ inl (ground arith)
  | inr b ↦ inr (b.0, ground (arith, b.1))
]

not-IsBelow_itself : (p : Text) → ¬ IsBelow p p
not-IsBelow_itself p (r, e) = omega (arith, ap length e, length-append p (slash ∷ r))

prefix-IsBelow :
    (p q : Text) → p ≢ q → has_prefix (q ++ slash ∷ []) (p ++ slash ∷ []) ≡ true → IsBelow p q
prefix-IsBelow p q n h =
    let (r, e) = has_prefix-find (q ++ slash ∷ []) (p ++ slash ∷ []) h in
    elim (split_slash p q r (e ∙ append_assoc q (slash ∷ []) r)) [
      | inl i ↦ absurd (n i)
      | inr b ↦ b
    ]

IsBelow-prefix : (p q : Text) → IsBelow p q → has_prefix (q ++ slash ∷ []) (p ++ slash ∷ []) ≡ true
IsBelow-prefix p q (r, e) =
    rw (e, append_assoc q (slash ∷ r) (slash ∷ []), ← append_assoc q (slash ∷ []) (r ++ slash ∷ []))
      (has_prefix-append (q ++ slash ∷ []) (r ++ slash ∷ []))

differ : (p q : Text) → IsBelow p q → eqb p q ≡ false
differ p q b = elim (Bool-cases (eqb p q)) [
  | inr e ↦ e
  | inl e ↦ absurd (not-IsBelow_itself q (subst (λ t. IsBelow t q) ((eqb_iff p q).0 e) b))
]

-- Two package paths overlap exactly if one of them lies below the other. Equal paths do not overlap.
pub paths_overlap_iff : (p q : Text) → (paths_overlap p q ≡ true) ↔ (IsBelow p q ⊎ IsBelow q p)
unfolding paths_overlap
paths_overlap_iff p q = (to, from)
  where
    to : paths_overlap p q ≡ true → IsBelow p q ⊎ IsBelow q p
    to h = elim (Bool-cases (eqb p q)) [
      | inl e ↦ cc (simp e at h)
      | inr e ↦ elim (Bool-cases (has_prefix (p ++ slash ∷ []) (q ++ slash ∷ []))) [
        | inl a ↦ inr (prefix-IsBelow q p (λ i. cc ((eqb_iff p q).1 (sym i), e)) a)
        | inr a ↦ inl (prefix-IsBelow p q (λ i. cc ((eqb_iff p q).1 i, e)) (ground arith))
      ]
    ]

    from : IsBelow p q ⊎ IsBelow q p → paths_overlap p q ≡ true
    from (inl b) = ground (arith, differ p q b, IsBelow-prefix p q b)
    from (inr b) = ground (arith, differ q p b, eqb_iff p q, eqb_iff q p, IsBelow-prefix q p b)
