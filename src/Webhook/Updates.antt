-- ===== src/Webhook/Updates.antt =====
-- Which updates the v1alpha2 webhook allows, and how its lifecycle changes compare with those of the
-- v1alpha1 API.
use porch.Common.{true, ◌≡◌, ◌↔◌, ◌⊎◌, refl, arith, eqb_iff, is_empty, codes, none}
use porch.Common.Maps.{get_or_empty}
use porch.Lifecycle.{Lifecycle, draft, proposed, published, deletion_proposed, lifecycle_eq_iff}
use porch.PackageRevision.{PackageRevision}
use porch.Webhook.Equality.{source_equal_iff, subpackage_operation_unchanged_iff}
use porch.Webhook.Validator.{
  check_lifecycle_transition, check_render_race, check_immutable, check_lifecycle_change,
  validate_update,
}

-- The changes of the lifecycle.
pub data Transition : Lifecycle → Lifecycle → Type 0 where
  propose : Transition draft proposed
  publish : Transition proposed published
  reject : Transition proposed draft
  propose_deletion : Transition published deletion_proposed
  keep : Transition deletion_proposed published

Transition-allowed : (a b : Lifecycle) → check_lifecycle_transition a b ≡ none → Transition a b
unfolding check_lifecycle_transition
Transition-allowed draft proposed h = propose
Transition-allowed proposed published h = publish
Transition-allowed proposed draft h = reject
Transition-allowed published deletion_proposed h = propose_deletion
Transition-allowed deletion_proposed published h = keep
Transition-allowed _ _ h = cc

Transition-of : {a b : Lifecycle} → Transition a b → check_lifecycle_transition a b ≡ none
unfolding check_lifecycle_transition
Transition-of propose = refl
Transition-of publish = refl
Transition-of reject = refl
Transition-of propose_deletion = refl
Transition-of keep = refl

pub check_lifecycle_transition_iff :
    (a b : Lifecycle) → (check_lifecycle_transition a b ≡ none) ↔ Transition a b
check_lifecycle_transition_iff a b = (Transition-allowed a b, Transition-of)

-- No render of the revision is under way or waited for.
abbrev pub IsRendered : PackageRevision → Type 0
IsRendered pr =
    (is_empty pr.status.rendering_prr_resource_version ≡ true)
    × ((is_empty (get_or_empty (codes "porch.kpt.dev/render-request") pr.annotations) ≡ true)
        ⊎ (pr.status.observed_prr_resource_version
            ≡ get_or_empty (codes "porch.kpt.dev/render-request") pr.annotations))

pub record IsAllowedUpdate (old new : PackageRevision) : Type 0 where
  pub same_repository : old.spec.repository_name ≡ new.spec.repository_name
  pub same_package : old.spec.package_name ≡ new.spec.package_name
  pub same_workspace : old.spec.workspace_name ≡ new.spec.workspace_name
  pub same_source : old.spec.source ≡ new.spec.source
  pub operation_on_draft :
      (old.spec.subpackage_operation ≡ new.spec.subpackage_operation) ⊎ (new.spec.lifecycle ≡ draft)
  pub lifecycle_change :
      (old.spec.lifecycle ≡ new.spec.lifecycle)
      ⊎ Transition old.spec.lifecycle new.spec.lifecycle
        × ((new.spec.lifecycle ≡ draft) ⊎ IsRendered new)

check_render_race_iff : (pr : PackageRevision) → (check_render_race pr ≡ none) ↔ IsRendered pr
unfolding check_render_race
check_render_race_iff pr = ground (
  arith,
  eqb_iff pr.status.observed_prr_resource_version
      (get_or_empty (codes "porch.kpt.dev/render-request") pr.annotations),
)

check_immutable_iff :
    (old new : PackageRevision)
    → (check_immutable old new ≡ none) ↔ (
        (old.spec.repository_name ≡ new.spec.repository_name)
        × (old.spec.package_name ≡ new.spec.package_name)
        × (old.spec.workspace_name ≡ new.spec.workspace_name)
        × (old.spec.source ≡ new.spec.source))
unfolding check_immutable
check_immutable_iff old new = ground (
  arith,
  eqb_iff old.spec.repository_name new.spec.repository_name,
  eqb_iff old.spec.package_name new.spec.package_name,
  eqb_iff old.spec.workspace_name new.spec.workspace_name,
  source_equal_iff old.spec.source new.spec.source,
)

check_lifecycle_change_iff :
    (old new : PackageRevision)
    → (check_lifecycle_change old new ≡ none) ↔ (
        (old.spec.lifecycle ≡ new.spec.lifecycle)
        ⊎ Transition old.spec.lifecycle new.spec.lifecycle
          × ((new.spec.lifecycle ≡ draft) ⊎ IsRendered new))
unfolding check_lifecycle_change
check_lifecycle_change_iff old new = (
  λ h. ground (
    arith,
    lifecycle_eq_iff old.spec.lifecycle new.spec.lifecycle,
    lifecycle_eq_iff new.spec.lifecycle draft,
    check_lifecycle_transition_iff old.spec.lifecycle new.spec.lifecycle,
    check_render_race_iff new,
  ),
  λ h. ground (
    arith,
    lifecycle_eq_iff old.spec.lifecycle new.spec.lifecycle,
    lifecycle_eq_iff new.spec.lifecycle draft,
    check_lifecycle_transition_iff old.spec.lifecycle new.spec.lifecycle,
    check_render_race_iff new,
  ),
)

-- An update is allowed exactly if repository, package, workspace and source stay, a changed
-- subpackage operation is that of a Draft, and a changed lifecycle makes one of the five transitions,
-- with the content rendered unless it goes back to Draft.
pub webhook_update_iff :
    (old new : PackageRevision) → (validate_update old new ≡ none) ↔ IsAllowedUpdate old new
unfolding validate_update
webhook_update_iff old new = (
  λ h. ground (
    arith,
    check_immutable_iff old new,
    check_lifecycle_change_iff old new,
    subpackage_operation_unchanged_iff old.spec.subpackage_operation new.spec.subpackage_operation,
    lifecycle_eq_iff new.spec.lifecycle draft,
  ),
  λ a. ground (
    arith,
    check_immutable_iff old new,
    check_lifecycle_change_iff old new,
    subpackage_operation_unchanged_iff old.spec.subpackage_operation new.spec.subpackage_operation,
    lifecycle_eq_iff new.spec.lifecycle draft,
  ),
)
