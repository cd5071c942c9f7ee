-- ===== src/Registry/Update.antt =====
-- pkg/registry/porch/packagecommon.go: validateUpdate, which both strategies go through,
-- getLifecycleTransition, and the checks of validateDelete.
use porch.Common.{Bool, not, ◌&&◌, List, [], ◌∷◌, Option, none, some, if◌then◌else◌}
use porch.Lifecycle.{Lifecycle, draft, proposed, published, deletion_proposed, lifecycle_eq}
use porch.Names.Objects.{Dns}
use porch.Registry.Strategy.{
  Revision, Spec, FieldError, prepare_for_update, validate_update, validate, canonicalize,
}
use porch.Registry.Approval.{validate_approval}

-- SimpleRESTUpdateStrategy and SimpleRESTCreateStrategy. `prepare` gives `none` where the Go method
-- panics.
pub record UpdateStrategy (Metadata Rest : Type 0) : Type 0 where
  pub prepare :
      Revision Metadata Rest → Option (Revision Metadata Rest) → Option (Revision Metadata Rest)
  pub update_errors : Revision Metadata Rest → Revision Metadata Rest → List FieldError
  pub create_errors : Revision Metadata Rest → List FieldError
  pub canonical : Revision Metadata Rest → Revision Metadata Rest

pub data Outcome (A : Type 0) : Type 0 where
  admitted : A → Outcome A
  refused_by_hook : Outcome A
  invalid : List FieldError → Outcome A
  panicked : Outcome A

module _ {Metadata Rest : Type 0} where
  -- `old.(*porchapi.PackageRevision)` panics on a nil `old`.
  abbrev prepared :
      Revision Metadata Rest → Option (Revision Metadata Rest) → Option (Revision Metadata Rest)
  prepared new none = none
  prepared new (some old) = some (prepare_for_update new old)

  unfoldable pub revision_strategy :
      (Spec Metadata Rest → Spec Metadata Rest → Bool) → Dns → UpdateStrategy Metadata Rest
  revision_strategy deep_equal dns = record {
    prepare = prepared;
    update_errors = validate_update deep_equal;
    create_errors = validate dns;
    canonical = canonicalize;
  }

  unfoldable pub approval_strategy : UpdateStrategy Metadata Rest
  approval_strategy = record {
    prepare = λ new old. some new;
    update_errors = validate_approval;
    create_errors = λ new. [];
    canonical = λ new. new;
  }

  abbrev pub checked : List FieldError → Revision Metadata Rest → Outcome (Revision Metadata Rest)
  checked [] r = admitted r
  checked (e ∷ es) r = invalid (e ∷ es)

  module _ (s : UpdateStrategy Metadata Rest) (create_hook : Revision Metadata Rest → Bool)
      (update_hook : Revision Metadata Rest → Revision Metadata Rest → Bool) where
    -- What follows the preparation: the hook of the request (true where it is nil or has no error),
    -- the strategy's errors, and the canonical form.
    unfoldable pub validate_prepared :
        Option (Revision Metadata Rest)
        → Option (Revision Metadata Rest)
        → Outcome (Revision Metadata Rest)
    validate_prepared none old = panicked
    validate_prepared (some new) none =
        if create_hook new then checked (s.create_errors new) (s.canonical new) else refused_by_hook
    validate_prepared (some new) (some old) =
        if update_hook new old
        then checked (s.update_errors new old) (s.canonical new)
        else refused_by_hook

    -- validateUpdate; the request is a create where there is no old object
    unfoldable pub validate_request :
        Revision Metadata Rest → Option (Revision Metadata Rest) → Outcome (Revision Metadata Rest)
    unfolding validate_prepared
    validate_request new old = validate_prepared (s.prepare new old) old

-- The actions that getLifecycleTransition names.
pub data Action : Type 0 where
  propose propose_delete reject approve approve_or_reject update_action : Action

-- getLifecycleTransition
unfoldable pub get_lifecycle_transition : Lifecycle → Lifecycle → Action
get_lifecycle_transition old new =
    if not (lifecycle_eq old new)
    then if lifecycle_eq old draft && lifecycle_eq new proposed
      then propose
      else if lifecycle_eq old published && lifecycle_eq new deletion_proposed
      then propose_delete
      else if lifecycle_eq old proposed && lifecycle_eq new draft
      then reject
      else if lifecycle_eq old proposed && lifecycle_eq new published
      then approve
      else if lifecycle_eq old deletion_proposed && lifecycle_eq new published
      then approve_or_reject
      else update_action
    else update_action
