-- ===== src/Registry/Strategy.antt =====
-- packageRevisionStrategy of pkg/registry/porch/strategy.go.
use porch.Common.{
  Bool, true, false, Text, List, [], ◌∷◌, ◌++◌, Option, none, some, if◌then◌else◌, eqb,
}
use porch.Lifecycle.{
  Lifecycle, unset, draft, proposed, published, deletion_proposed, other, is_published,
}
use porch.Names.Objects.{Dns, validate_directory_name, validate_k8s_name, no_errors}

-- PackageRevision, with the fields that the strategy reads. `Metadata` and `Rest` stand for the
-- package metadata and for the other fields of the spec, which are only compared.
pub record Spec (Metadata Rest : Type 0) : Type 0 where
  pub package_name : Text
  pub workspace_name : Text
  pub lifecycle : Lifecycle
  pub package_metadata : Option Metadata
  pub rest : Rest

-- `latest_label` is the label kpt.dev/latest-revision, if the object has it.
pub record Revision (Metadata Rest : Type 0) : Type 0 where
  pub latest_label : Option Text
  pub spec : Spec Metadata Rest

-- The field of an error and what is wrong with it, without the texts of the messages.
pub data FieldError : Type 0 where
  label_managed lifecycle_value lifecycle_current spec_changed package_name_value
        workspace_name_value :
      FieldError

abbrev pub label_value : Option Text → Text
label_value none = []
label_value (some t) = t

abbrev pub report : Bool → FieldError → List FieldError
report true e = []
report false e = e ∷ []

-- The first `switch` of ValidateUpdate.
unfoldable pub can_update_to : Lifecycle → Bool
can_update_to (other t) = false
can_update_to _ = true

abbrev pub is_unpublished : Lifecycle → Bool
is_unpublished unset = true
is_unpublished draft = true
is_unpublished proposed = true
is_unpublished _ = false

abbrev default_lifecycle : Lifecycle → Lifecycle
default_lifecycle unset = draft
default_lifecycle l = l

abbrev or_old : {Metadata : Type 0} → Option Metadata → Option Metadata → Option Metadata
or_old none old = old
or_old (some m) old = some m

abbrev pub is_absent : Option Text → Bool
is_absent none = true
is_absent (some t) = false

-- The `switch` of Validate.
abbrev can_create_as : Lifecycle → Bool
can_create_as unset = true
can_create_as draft = true
can_create_as l = false

module _ {Metadata Rest : Type 0} where
  -- PrepareForUpdate
  unfoldable pub prepare_for_update :
      Revision Metadata Rest → Revision Metadata Rest → Revision Metadata Rest
  prepare_for_update new old = record new {
    spec = record new.spec {
      package_metadata = or_old new.spec.package_metadata old.spec.package_metadata;
    };
  }

  -- Canonicalize
  unfoldable pub canonicalize : Revision Metadata Rest → Revision Metadata Rest
  canonicalize r = record r {
    spec = record r.spec { lifecycle = default_lifecycle r.spec.lifecycle };
  }

  -- equality.Semantic.DeepEqual on specs belongs to k8s.io/apimachinery.
  module _ (deep_equal : Spec Metadata Rest → Spec Metadata Rest → Bool) where
    -- The comparison of the specs of a published revision: the lifecycle is left out if the new one
    -- is a published one too.
    unfoldable pub same_spec : Spec Metadata Rest → Spec Metadata Rest → Bool
    same_spec old new =
        deep_equal old
          (if is_published new.lifecycle then record new { lifecycle = old.lifecycle } else new)

    -- The second `switch` of ValidateUpdate, on the old object's lifecycle.
    unfoldable pub check_transition :
        Lifecycle → Spec Metadata Rest → Spec Metadata Rest → List FieldError
    check_transition unset old new = report (is_unpublished new.lifecycle) lifecycle_current
    check_transition draft old new = report (is_unpublished new.lifecycle) lifecycle_current
    check_transition proposed old new = report (is_unpublished new.lifecycle) lifecycle_current
    check_transition published old new = report (same_spec old new) spec_changed
    check_transition deletion_proposed old new = report (same_spec old new) spec_changed
    check_transition (other t) old new = lifecycle_current ∷ []

    -- ValidateUpdate
    unfoldable pub validate_update :
        Revision Metadata Rest → Revision Metadata Rest → List FieldError
    validate_update new old =
        report (eqb (label_value old.latest_label) (label_value new.latest_label)) label_managed
        ++ (report (can_update_to new.spec.lifecycle) lifecycle_value
            ++ check_transition old.spec.lifecycle old.spec new.spec)

  -- Validate
  unfoldable pub validate : Dns → Revision Metadata Rest → List FieldError
  validate dns r =
      report (is_absent r.latest_label) label_managed
      ++ (report (no_errors (validate_directory_name dns r.spec.package_name true))
            package_name_value
          ++ (report (no_errors (validate_k8s_name dns r.spec.workspace_name)) workspace_name_value
              ++ report (can_create_as r.spec.lifecycle) lifecycle_value))
