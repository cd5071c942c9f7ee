-- ===== src/Variants/Targets.antt =====
-- Which revisions getDownstreamPRs (packagevariant_controller.go) returns.
use mathlib.Core.List.{append_assoc, append-nil}
use porch.Common.{
  Bool, not, ◌&&◌, ◌||◌, ◌≡◌, inl, inr, refl, sym, ap, subst, ◌∙◌, eqb, List, [], ◌∷◌, ◌++◌, Option,
  if◌then◌else◌, keep_if, keep_if-append, Bool-cases,
}
use porch.Common.Int.{ℤ}
use porch.Lifecycle.{is_published}
use porch.Variants.{
  Revision, Downstream, Variant, adopt_existing, has_our_owner_reference, adopt_package_revision,
  compare_published, is_target, Found, keep, also, update_object, visit, visit_all,
}

abbrev pub Latest : Type 0
Latest = Option Revision × ℤ

abbrev pub is_unpublished : Revision → Bool
is_unpublished pr = not (is_published pr.lifecycle)

module _ (pv : Variant) (d : Downstream) where
  -- The revisions of the target package that the variant owns or adopts, as they are afterwards.
  abbrev pub is_candidate : Revision → Bool
  is_candidate pr =
      (has_our_owner_reference pv pr.owners || eqb pv.adoption_policy adopt_existing)
      && is_target d pr

  abbrev pub settle : Revision → Revision
  settle pr = if has_our_owner_reference pv pr.owners then pr else adopt_package_revision pv pr

  abbrev pub targets : List Revision → List Revision
  targets [] = []
  targets (pr ∷ prs) = let rest = targets prs in if is_candidate pr then settle pr ∷ rest else rest

abbrev pub after_one : Revision → Latest → Latest
after_one pr l = if is_published pr.lifecycle then compare_published pr l else l

abbrev pub after_all : List Revision → Latest → Latest
after_all [] l = l
after_all (pr ∷ prs) l = after_all prs (after_one pr l)

-- What the loop keeps of the revisions `ts` that it goes through.
pub record Kept (ts : List Revision) (before after : Found) : Type 0 where
  pub drafts : after.drafts ≡ before.drafts ++ keep_if is_unpublished ts
  pub latest : after.latest ≡ after_all ts before.latest

keep-Kept : (pr : Revision) (f : Found) → Kept (pr ∷ []) f (keep pr f)
keep-Kept pr f = elim (Bool-cases (is_published pr.lifecycle)) [
  | inl e ↦ simp e (record { drafts = simp e (sym (append-nil f.drafts)); latest = simp e refl })
  | inr e ↦ simp e (record { drafts = simp e refl; latest = simp e refl })
]

after_all-append :
    (ts us : List Revision) (l : Latest) → after_all (ts ++ us) l ≡ after_all us (after_all ts l)
after_all-append [] us l = refl
after_all-append (t ∷ ts) us l = after_all-append ts us (after_one t l)

Kept-then :
    {ts us : List Revision} {f g h : Found} → Kept ts f g → Kept us g h → Kept (ts ++ us) f h
Kept-then {ts} {us} {f} k l = record {
  drafts =
      l.drafts
      ∙ ap (λ ds. ds ++ keep_if is_unpublished us) k.drafts
      ∙ append_assoc f.drafts (keep_if is_unpublished ts) (keep_if is_unpublished us)
      ∙ ap (λ ds. f.drafts ++ ds) (sym (keep_if-append is_unpublished ts us));
  latest = l.latest ∙ ap (after_all us) k.latest ∙ sym (after_all-append ts us f.latest);
}

nothing-Kept : (f g : Found) → g.drafts ≡ f.drafts → g.latest ≡ f.latest → Kept [] f g
nothing-Kept f g e q = record { drafts = e ∙ sym (append-nil f.drafts); latest = q }

module _ (pv : Variant) (d : Downstream) where
  -- What one revision adds to the targets.
  abbrev one_target : Revision → List Revision
  one_target pr = if is_candidate pv d pr then settle pv d pr ∷ [] else []

  visit-Kept : (f : Found) (pr : Revision) → Kept (one_target pr) f (visit pv d f pr)
  unfolding visit
  visit-Kept f pr = elim (Bool-cases (has_our_owner_reference pv pr.owners)) [
    | inl o ↦ elim (Bool-cases (is_target d pr)) [
      | inl t ↦ simp (o, t) (keep-Kept pr f)
      | inr t ↦ simp (o, t) (nothing-Kept f _ refl refl)
    ]
    | inr o ↦ elim (Bool-cases (eqb pv.adoption_policy adopt_existing)) [
      | inr a ↦ simp (o, a) (nothing-Kept f f refl refl)
      | inl a ↦ elim (Bool-cases (is_target d pr)) [
        | inr t ↦ simp (o, a, t) (nothing-Kept f f refl refl)
        | inl t ↦
            let k =
              keep-Kept (adopt_package_revision pv pr)
                (also (update_object (adopt_package_revision pv pr) ∷ []) f) in
            simp (o, a, t) (record { drafts = k.drafts; latest = k.latest })
      ]
    ]
  ]

  pub visit_all-Kept :
      (f : Found) (prs : List Revision) → Kept (targets pv d prs) f (visit_all pv d f prs)
  unfolding visit_all
  visit_all-Kept f [] = nothing-Kept f f refl refl
  visit_all-Kept f (pr ∷ prs) =
      subst (λ ts. Kept ts f (visit_all pv d (visit pv d f pr) prs)) (sym (one_more pr prs))
        (Kept-then (visit-Kept f pr) (visit_all-Kept (visit pv d f pr) prs))
    where
      one_more :
          (q : Revision) (qs : List Revision)
          → targets pv d (q ∷ qs) ≡ one_target q ++ targets pv d qs
      one_more q qs = elim (Bool-cases (is_candidate pv d q)) [
        | inl e ↦ simp e refl
        | inr e ↦ simp e refl
      ]
