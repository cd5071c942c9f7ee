-- ===== src/Registry/Transitions.antt =====
-- Which lifecycle changes the two strategies of pkg/registry/porch accept.
use porch.Common.{
  Bool, true, false, ◌≡◌, ◌↔◌, ◌⊎◌, inl, inr, refl, arith, List, [], ◌++◌, eqb, eqb→eq, eqb_iff,
  Bool-cases, ap,
}
use porch.Lifecycle.{
  Lifecycle, unset, draft, proposed, published, deletion_proposed, other, is_published,
  lifecycle_eq,
}
use porch.Registry.Strategy.{
  Revision, Spec, FieldError, label_managed, lifecycle_value, label_value, validate_update,
  is_unpublished, can_update_to, check_transition, same_spec, report,
}
use porch.Registry.Approval.{validate_approval, check_current, check_desired}

-- The changes that an approval may make.
pub data Approves : Lifecycle → Lifecycle → Type 0 where
  approve : Approves proposed published
  reject : Approves proposed draft
  propose_deletion : Approves published deletion_proposed
  keep : Approves deletion_proposed published

approval_errors-none :
    (a b : Lifecycle) → check_current a b ++ check_desired a b ≡ [] → Approves a b
unfolding check_current check_desired lifecycle_eq
approval_errors-none proposed published h = approve
approval_errors-none proposed draft h = reject
approval_errors-none published deletion_proposed h = propose_deletion
approval_errors-none deletion_proposed published h = keep
approval_errors-none _ _ h = cc

approval_errors_of : {a b : Lifecycle} → Approves a b → check_current a b ++ check_desired a b ≡ []
unfolding check_current check_desired lifecycle_eq
approval_errors_of approve = refl
approval_errors_of reject = refl
approval_errors_of propose_deletion = refl
approval_errors_of keep = refl

-- The approval strategy accepts a change exactly if it publishes a proposed revision, returns it to
-- draft, proposes the deletion of a published one, or takes such a proposal back.
pub validate_approval_iff :
    {Metadata Rest : Type 0} (new old : Revision Metadata Rest)
    → (validate_approval new old ≡ []) ↔ Approves old.spec.lifecycle new.spec.lifecycle
unfolding validate_approval
validate_approval_iff new old =
    (approval_errors-none old.spec.lifecycle new.spec.lifecycle, approval_errors_of)

report-nil :
    (b : Bool) (e : FieldError) (es : List FieldError)
    → report b e ++ es ≡ []
    → (b ≡ true) × (es ≡ [])
report-nil true e es h = (refl, h)
report-nil false e es h = cc

module _ {Metadata Rest : Type 0} (deep_equal : Spec Metadata Rest → Spec Metadata Rest → Bool)
    (deep_lifecycle : (a b : Spec Metadata Rest)
      → deep_equal a b ≡ true
      → a.lifecycle ≡ b.lifecycle) where
  -- The change of a spec that an update may make.
  abbrev pub SpecUpdates : Spec Metadata Rest → Spec Metadata Rest → Type 0
  SpecUpdates new old =
      (is_unpublished old.lifecycle ≡ true) × (is_unpublished new.lifecycle ≡ true)
      ⊎ (is_published old.lifecycle ≡ true)
        × (is_published new.lifecycle ≡ true)
        × (deep_equal old (record new { lifecycle = old.lifecycle }) ≡ true)

  same_spec_published :
      (old new : Spec Metadata Rest)
      → is_published old.lifecycle ≡ true
      → same_spec deep_equal old new ≡ true
      → SpecUpdates new old
  unfolding same_spec
  same_spec_published old new p h = elim (Bool-cases (is_published new.lifecycle)) [
    | inl e ↦ inr (p, e, rw e at h)
    | inr e ↦ cc (p, e, ap is_published (deep_lifecycle old new (rw e at h)))
  ]

  same_spec_of :
      (old new : Spec Metadata Rest)
      → SpecUpdates new old
      → is_unpublished old.lifecycle ≡ false
      → same_spec deep_equal old new ≡ true
  unfolding same_spec
  same_spec_of old new (inl p) h = cc
  same_spec_of old new (inr p) h = rw p.1 p.2

  check_transition_none :
      (l : Lifecycle) (old new : Spec Metadata Rest)
      → old.lifecycle ≡ l
      → check_transition deep_equal l old new ≡ []
      → SpecUpdates new old
  unfolding check_transition is_published lifecycle_eq
  check_transition_none unset old new e h = inl (rw e refl, ground arith)
  check_transition_none draft old new e h = inl (rw e refl, ground arith)
  check_transition_none proposed old new e h = inl (rw e refl, ground arith)
  check_transition_none published old new e h =
      same_spec_published old new (rw e refl) (ground arith)
  check_transition_none deletion_proposed old new e h =
      same_spec_published old new (rw e refl) (ground arith)
  check_transition_none (other t) old new e h = cc

  check_transition_of :
      (l : Lifecycle) (old new : Spec Metadata Rest)
      → old.lifecycle ≡ l
      → SpecUpdates new old
      → (check_transition deep_equal l old new ≡ []) × (can_update_to new.lifecycle ≡ true)
  unfolding check_transition is_published lifecycle_eq can_update_to
  check_transition_of unset old new e u = ground arith
  check_transition_of draft old new e u = ground arith
  check_transition_of proposed old new e u = ground arith
  check_transition_of published old new e u = ground (arith, same_spec_of old new u)
  check_transition_of deletion_proposed old new e u = ground (arith, same_spec_of old new u)
  check_transition_of (other t) old new e u = ground arith

  -- An update is valid exactly if it leaves the latest-revision label as it was, and either both
  -- lifecycles are unpublished ones, or both are published ones and nothing but the lifecycle
  -- changes in the spec. (Equal specs have equal lifecycles.)
  pub validate_update_iff :
      (new old : Revision Metadata Rest)
      → (validate_update deep_equal new old ≡ []) ↔ (
          (label_value old.latest_label ≡ label_value new.latest_label)
          × SpecUpdates new.spec old.spec)
  unfolding validate_update
  validate_update_iff new old = (split, join)
    where
      checks : List FieldError
      checks = check_transition deep_equal old.spec.lifecycle old.spec new.spec

      split :
          validate_update deep_equal new old ≡ []
          → (label_value old.latest_label ≡ label_value new.latest_label)
            × SpecUpdates new.spec old.spec
      split h =
          let (l, r) =
            report-nil (eqb (label_value old.latest_label) (label_value new.latest_label))
              label_managed (report (can_update_to new.spec.lifecycle) lifecycle_value ++ checks)
              h in
          let (u, t) = report-nil (can_update_to new.spec.lifecycle) lifecycle_value checks r in
          (eqb→eq _ _ l, check_transition_none old.spec.lifecycle old.spec new.spec refl t)

      join :
          (label_value old.latest_label ≡ label_value new.latest_label)
            × SpecUpdates new.spec old.spec
          → validate_update deep_equal new old ≡ []
      join (l, u) =
          let (t, k) = check_transition_of old.spec.lifecycle old.spec new.spec refl u in
          rw ((eqb_iff _ _).1 l, k, t) refl
