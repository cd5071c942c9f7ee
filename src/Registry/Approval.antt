-- ===== src/Registry/Approval.antt =====
-- packageRevisionApprovalStrategy of pkg/registry/porch/packagerevision_approval.go.
use porch.Common.{List, [], ◌∷◌, ◌++◌}
use porch.Lifecycle.{Lifecycle, draft, proposed, published, deletion_proposed, lifecycle_eq}
use porch.Registry.Strategy.{Revision, FieldError, lifecycle_value, lifecycle_current, report}

-- The first `switch` of ValidateUpdate.
unfoldable pub check_current : Lifecycle → Lifecycle → List FieldError
check_current published new = report (lifecycle_eq new deletion_proposed) lifecycle_current
check_current deletion_proposed new = report (lifecycle_eq new published) lifecycle_current
check_current proposed new = []
check_current _ new = lifecycle_current ∷ []

-- The second `switch` of ValidateUpdate.
unfoldable pub check_desired : Lifecycle → Lifecycle → List FieldError
check_desired old draft = []
check_desired old published = []
check_desired old deletion_proposed = report (lifecycle_eq old published) lifecycle_value
check_desired old _ = lifecycle_value ∷ []

-- ValidateUpdate
unfoldable pub validate_approval :
    {Metadata Rest : Type 0} → Revision Metadata Rest → Revision Metadata Rest → List FieldError
validate_approval new old =
    check_current old.spec.lifecycle new.spec.lifecycle
    ++ check_desired old.spec.lifecycle new.spec.lifecycle
