-- ===== src/Variants/Safety.antt =====
-- Which objects getDownstreamPRs (packagevariant_controller.go) changes.
use porch.Common.{
  true, false, ◌||◌, ◌≡◌, refl, eqb, eqb→eq, is_empty, List, [], ◌∷◌, ◌++◌, Memᴰ, All, Bool-cases,
  inl, inr,
}
use porch.Lifecycle.{
  Lifecycle, unset, draft, proposed, published, deletion_proposed, other, is_published,
  lifecycle_eq,
}
use porch.Variants.{
  Revision, Downstream, Variant, adopt_existing, orphan_policy, delete_policy, Effect,
  delete_object, update_object, has_our_owner_reference, remove_owner_ref_by_uid,
  orphan_package_revision, delete_package_revision, delete_or_orphan, adopt_package_revision,
  is_target, Found, keep, also, visit, visit_all, get_downstream_prs, start,
}

module _ (pv : Variant) (d : Downstream) where
  -- A revision that the variant owns but that is not of its target package.
  abbrev pub IsStale : Revision → Type 0
  IsStale pr = (has_our_owner_reference pv pr.owners ≡ true) × (is_target d pr ≡ false)

  -- The reasons for a call.
  pub data IsJustified (prs : List Revision) : Effect → Type 0 where
    deleted :
        (pr : Revision)
        → Memᴰ pr prs
        → IsStale pr
        → is_published pr.lifecycle ≡ false
        → IsJustified prs (delete_object pr)
    deletion_is_proposed :
        (pr : Revision)
        → Memᴰ pr prs
        → IsStale pr
        → pr.lifecycle ≡ published
        → IsJustified prs (update_object (record pr { lifecycle = deletion_proposed }))
    orphaned :
        (pr : Revision)
        → Memᴰ pr prs
        → IsStale pr
        → pv.deletion_policy ≡ orphan_policy
        → IsJustified prs
            (update_object (record pr { owners = remove_owner_ref_by_uid pv.uid pr.owners }))
    adopted :
        (pr : Revision)
        → Memᴰ pr prs
        → has_our_owner_reference pv pr.owners ≡ false
        → is_target d pr ≡ true
        → pv.adoption_policy ≡ adopt_existing
        → IsJustified prs (update_object (adopt_package_revision pv pr))

  All-append :
      (prs : List Revision) (a b : List Effect)
      → All (IsJustified prs) a
      → All (IsJustified prs) b
      → All (IsJustified prs) (a ++ b)
  All-append prs [] b h q = q
  All-append prs (x ∷ a) b h q = (h.0, All-append prs a b h.1 q)

  delete-IsJustified :
      (prs : List Revision) (pr : Revision) (l : Lifecycle)
      → pr.lifecycle ≡ l
      → Memᴰ pr prs
      → IsStale pr
      → All (IsJustified prs) (delete_package_revision l pr)
  unfolding delete_package_revision is_published lifecycle_eq
  delete-IsJustified prs pr unset e m s = (deleted pr m s (rw e refl), tt)
  delete-IsJustified prs pr draft e m s = (deleted pr m s (rw e refl), tt)
  delete-IsJustified prs pr proposed e m s = (deleted pr m s (rw e refl), tt)
  delete-IsJustified prs pr published e m s = (deletion_is_proposed pr m s e, tt)
  delete-IsJustified prs pr deletion_proposed e m s = tt
  delete-IsJustified prs pr (other t) e m s = tt

  stale-IsJustified :
      (prs : List Revision) (pr : Revision)
      → Memᴰ pr prs
      → IsStale pr
      → All (IsJustified prs) (delete_or_orphan pv pr)
  unfolding delete_or_orphan orphan_package_revision
  stale-IsJustified prs pr m s =
      elim (Bool-cases (is_empty pv.deletion_policy || eqb pv.deletion_policy delete_policy)) [
        | inl e ↦ simp e (delete-IsJustified prs pr pr.lifecycle refl m s)
        | inr e ↦ elim (Bool-cases (eqb pv.deletion_policy orphan_policy)) [
          | inl o ↦ simp (e, o) (orphaned pr m s (eqb→eq pv.deletion_policy orphan_policy o), tt)
          | inr o ↦ simp (e, o) tt
        ]
      ]

  effects-keep : (pr : Revision) (f : Found) → (keep pr f).effects ≡ f.effects
  effects-keep pr f = elim (Bool-cases (is_published pr.lifecycle)) [
    | inl e ↦ simp e refl
    | inr e ↦ simp e refl
  ]

  visit-IsJustified :
      (prs : List Revision) (f : Found) (pr : Revision)
      → Memᴰ pr prs
      → All (IsJustified prs) f.effects
      → All (IsJustified prs) (visit pv d f pr).effects
  unfolding visit
  visit-IsJustified prs f pr m h = elim (Bool-cases (has_our_owner_reference pv pr.owners)) [
    | inl o ↦ elim (Bool-cases (is_target d pr)) [
      | inl t ↦ simp (o, t, effects-keep pr f) h
      | inr t ↦ simp (o, t) (All-append prs f.effects _ h (stale-IsJustified prs pr m (o, t)))
    ]
    | inr o ↦ elim (Bool-cases (eqb pv.adoption_policy adopt_existing)) [
      | inr a ↦ simp (o, a) h
      | inl a ↦ elim (Bool-cases (is_target d pr)) [
        | inr t ↦ simp (o, a, t) h
        | inl t ↦
            simp
              (
                o,
                a,
                t,
                effects-keep (adopt_package_revision pv pr)
                    (also (update_object (adopt_package_revision pv pr) ∷ []) f),
              )
              (All-append prs f.effects _ h
                (adopted pr m o t (eqb→eq pv.adoption_policy adopt_existing a), tt))
      ]
    ]
  ]

  visit_all-IsJustified :
      (whole : List Revision) (f : Found) (prs : List Revision)
      → ((pr : Revision) → Memᴰ pr prs → Memᴰ pr whole)
      → All (IsJustified whole) f.effects
      → All (IsJustified whole) (visit_all pv d f prs).effects
  unfolding visit_all
  visit_all-IsJustified whole f [] sub h = h
  visit_all-IsJustified whole f (pr ∷ prs) sub h =
      visit_all-IsJustified whole (visit pv d f pr) prs (λ q m. sub q (Memᴰ.tail m))
        (visit-IsJustified whole f pr (sub pr (Memᴰ.head refl)) h)

  -- Every call that the search for the target revisions makes has a reason: only a revision that the
  -- variant owns and that is not of its target package is deleted, if it is not published; for a
  -- published one the deletion is proposed; under the policy orphan it loses the variant's owner
  -- reference; and only a revision of the target package that the variant does not own is adopted,
  -- under the policy adoptExisting.
  pub effects-IsJustified :
      (prs : List Revision) → All (IsJustified prs) (get_downstream_prs pv d prs).1
  unfolding get_downstream_prs
  effects-IsJustified prs = visit_all-IsJustified prs (start pv d) prs (λ pr m. m) tt
