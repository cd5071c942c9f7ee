-- ===== src/Webhook/Agreement.antt =====
-- The lifecycles of the two API versions: the v1alpha2 webhook (pkg/webhook) beside the strategies of
-- the v1alpha1 API server (pkg/registry/porch/strategy.go).
use porch.Common.{Bool, true, ◌≡◌, ◌≢◌, ◌⊎◌, ◌↔◌, refl, arith, [], none, eqb, eqb_iff}
use porch.Lifecycle.{
  Lifecycle, unset, draft, proposed, published, deletion_proposed, other, is_valid, is_published,
  lifecycle_eq,
}
use porch.Registry.Strategy.{
  Spec, Revision, label_value, can_update_to, same_spec, check_transition, validate_update,
}
use porch.Registry.Approval.{validate_approval, check_current, check_desired}
use porch.Webhook.Validator.{check_lifecycle_transition}

label_same :
    {Metadata Rest : Type 0} (r : Revision Metadata Rest)
    → eqb (label_value r.latest_label) (label_value r.latest_label) ≡ true
label_same r = (eqb_iff (label_value r.latest_label) (label_value r.latest_label)).1 refl

module _ {Metadata Rest : Type 0} (deep_equal : Spec Metadata Rest → Spec Metadata Rest → Bool)
    (deep_refl : (s : Spec Metadata Rest) → deep_equal s s ≡ true)
    (deep_lifecycle : (a b : Spec Metadata Rest)
      → deep_equal a b ≡ true
      → a.lifecycle ≡ b.lifecycle)
    (r : Revision Metadata Rest) where
  abbrev pub at_lifecycle : Lifecycle → Revision Metadata Rest
  at_lifecycle l = record r { spec = record r.spec { lifecycle = l } }

  abbrev pub IsAccepted : Lifecycle → Lifecycle → Type 0
  IsAccepted a b =
      (validate_update deep_equal (at_lifecycle b) (at_lifecycle a) ≡ [])
      ⊎ (validate_approval (at_lifecycle b) (at_lifecycle a) ≡ [])

  -- Where DeepEqual holds of a spec and itself, and of no specs with different lifecycles, the two API versions agree: for a change of nothing
  -- but the lifecycle, between two different lifecycles that exist, the v1alpha2 webhook allows the
  -- transition exactly if the update strategy or the approval strategy of v1alpha1 accepts the update.
  pub lifecycle_versions_agree :
      (a b : Lifecycle)
      → is_valid a ≡ true
      → is_valid b ≡ true
      → a ≢ b
      → (check_lifecycle_transition a b ≡ none) ↔ IsAccepted a b
  unfolding check_lifecycle_transition validate_update validate_approval check_current check_desired
      check_transition same_spec can_update_to is_published lifecycle_eq is_valid
  lifecycle_versions_agree draft b p q n = ground (arith, label_same r)
  lifecycle_versions_agree proposed b p q n = ground (arith, label_same r)
  lifecycle_versions_agree published b p q n = ground (
    arith,
    label_same r,
    deep_refl (at_lifecycle published).spec,
    deep_lifecycle (at_lifecycle published).spec (at_lifecycle b).spec,
  )
  lifecycle_versions_agree deletion_proposed b p q n = ground (
    arith,
    label_same r,
    deep_refl (at_lifecycle deletion_proposed).spec,
    deep_lifecycle (at_lifecycle deletion_proposed).spec (at_lifecycle b).spec,
  )
  lifecycle_versions_agree unset b p q n = cc
  lifecycle_versions_agree (other t) b p q n = cc
