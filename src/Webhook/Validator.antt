-- ===== src/Webhook/Validator.antt =====
-- PackageRevisionValidator of
-- controllers/packagerevisions/pkg/webhooks/packagerevision_webhook.go. The messages of the errors
-- are left out; a wrapped error is the error that it wraps. The API server is a parameter.
use porch.Common.{
  is_some, Bool, true, false, not, ◌&&◌, ◌||◌, Text, eqb, is_empty, codes, List, [], ◌∷◌, Option,
  none, some, if◌then◌else◌,
}
use porch.Common.Maps.{Dict, get, get_or_empty}
use porch.Lifecycle.{Lifecycle, unset, draft, proposed, published, deletion_proposed, lifecycle_eq}
use porch.PackageRevision.{PackageRevision, PackageSource, UpstreamPackage, PackageUpgradeSpec}
use porch.Webhook.Equality.{source_equal, subpackage_operation_changed}

-- The Repository object, with the fields that the validator reads.
pub record Repository : Type 0 where
  pub annotations : Dict
  pub deleting : Bool

-- The result of client.Get.
pub data GetResult : Type 0 where
  found : Repository → GetResult
  not_found get_failed : GetResult

-- client.Reader: a Repository by namespace and name, and the PackageRevisions of a namespace, `none`
-- where the list fails.
pub record Reader : Type 0 where
  pub get_repository : Text → Text → GetResult
  pub list_revisions : Text → Option (List PackageRevision)

pub data AdmissionError : Type 0 where
  subpackage_at_creation repository_unavailable repository_not_migrated list_failed workspace_exists
        lifecycle_required lifecycle_not_initial repository_immutable package_name_immutable
        workspace_name_immutable source_immutable subpackage_not_draft invalid_transition
        render_in_progress content_not_rendered referenced published_package :
      AdmissionError

-- The error of a validation, `none` for the nil error.
abbrev pub Verdict : Type 0
Verdict = Option AdmissionError

abbrev pub allowed : Verdict
allowed = none

-- `if err := a; err != nil { return err }`, and then `b`.
infixr 20 ◌then_check◌
abbrev pub ◌then_check◌ : Verdict → Verdict → Verdict
none then_check b = b
some e then_check b = some e

-- `if bad { return e }`
abbrev pub refuse_if : Bool → AdmissionError → Verdict
refuse_if true e = some e
refuse_if false e = none

abbrev pub check_enabled : Option Text → Verdict
check_enabled none = some repository_not_migrated
check_enabled (some v) = refuse_if (not (eqb v (codes "true"))) repository_not_migrated

-- validateRepositoryAnnotation, on the result of the lookup
unfoldable pub check_annotation : GetResult → Verdict
check_annotation not_found = some repository_unavailable
check_annotation get_failed = some repository_unavailable
check_annotation (found repo) =
    check_enabled (get (codes "porch.kpt.dev/v1alpha2-migration") repo.annotations)

-- The two tests in the loop of validateWorkspaceUniqueness: is `p` another revision with the
-- repository, package and workspace of `pr`?
unfoldable pub same_workspace : PackageRevision → PackageRevision → Bool
same_workspace pr p =
    if eqb p.name pr.name && not (is_empty p.name)
    then false
    else eqb p.spec.repository_name pr.spec.repository_name
      && (eqb p.spec.package_name pr.spec.package_name
          && eqb p.spec.workspace_name pr.spec.workspace_name)

-- `for _, p := range items { if bad(p) { return e } }`
unfoldable pub refuse_any :
    (PackageRevision → Bool) → AdmissionError → List PackageRevision → Verdict
refuse_any bad e [] = allowed
refuse_any bad e (p ∷ ps) = if bad p then some e else refuse_any bad e ps

-- The loop of validateWorkspaceUniqueness.
unfoldable pub check_unique : PackageRevision → List PackageRevision → Verdict
check_unique pr = refuse_any (same_workspace pr) workspace_exists

abbrev pub on_list : (List PackageRevision → Verdict) → Option (List PackageRevision) → Verdict
on_list f none = some list_failed
on_list f (some ps) = f ps

-- The checks of the lifecycle for a revision that a user creates.
unfoldable pub check_initial : Lifecycle → Verdict
check_initial unset = some lifecycle_required
check_initial draft = allowed
check_initial proposed = allowed
check_initial _ = some lifecycle_not_initial

-- allowedTransitions of validateLifecycleTransition
unfoldable pub check_lifecycle_transition : Lifecycle → Lifecycle → Verdict
check_lifecycle_transition draft proposed = allowed
check_lifecycle_transition proposed published = allowed
check_lifecycle_transition proposed draft = allowed
check_lifecycle_transition published deletion_proposed = allowed
check_lifecycle_transition deletion_proposed published = allowed
check_lifecycle_transition _ _ = some invalid_transition

-- validateRenderRacePrevention
unfoldable pub check_render_race : PackageRevision → Verdict
check_render_race pr =
    let requested = get_or_empty (codes "porch.kpt.dev/render-request") pr.annotations in
    refuse_if (not (is_empty pr.status.rendering_prr_resource_version)) render_in_progress
    then_check refuse_if
        (not (is_empty requested) && not (eqb pr.status.observed_prr_resource_version requested))
        content_not_rendered

-- validateImmutableFields
unfoldable pub check_immutable : PackageRevision → PackageRevision → Verdict
check_immutable old new =
    refuse_if (not (eqb old.spec.repository_name new.spec.repository_name)) repository_immutable
    then_check refuse_if (not (eqb old.spec.package_name new.spec.package_name))
        package_name_immutable
    then_check refuse_if (not (eqb old.spec.workspace_name new.spec.workspace_name))
        workspace_name_immutable
    then_check refuse_if (not (source_equal old.spec.source new.spec.source)) source_immutable

-- The checks of ValidateUpdate for a changed lifecycle.
unfoldable pub check_lifecycle_change : PackageRevision → PackageRevision → Verdict
check_lifecycle_change old new =
    if lifecycle_eq old.spec.lifecycle new.spec.lifecycle
    then allowed
    else check_lifecycle_transition old.spec.lifecycle new.spec.lifecycle
      then_check (if lifecycle_eq new.spec.lifecycle draft then allowed else check_render_race new)

-- ValidateUpdate
unfoldable pub validate_update : PackageRevision → PackageRevision → Verdict
validate_update old new =
    check_immutable old new
    then_check refuse_if
        (subpackage_operation_changed old.spec.subpackage_operation new.spec.subpackage_operation
          && not (lifecycle_eq new.spec.lifecycle draft))
        subpackage_not_draft
    then_check check_lifecycle_change old new

-- isReferencedBy, for the two references that it reads
abbrev pub names_target : Text → Option Text → Bool
names_target target none = false
names_target target (some t) = eqb t target

abbrev pub clone_names : Text → Option UpstreamPackage → Bool
clone_names target none = false
clone_names target (some c) = names_target target c.upstream_ref

abbrev pub upgrade_names : Text → Option PackageUpgradeSpec → Bool
upgrade_names target none = false
upgrade_names target (some u) = eqb u.new_upstream target

unfoldable pub is_referenced_by : Option PackageSource → Text → Bool
is_referenced_by none target = false
is_referenced_by (some s) target = clone_names target s.clone_from || upgrade_names target s.upgrade

-- The loop of validateUpstreamReferences, with its tests; a source of nil references nothing.
unfoldable pub depends_on : PackageRevision → PackageRevision → Bool
depends_on pr p = not (eqb p.uid pr.uid) && is_referenced_by p.spec.source pr.name

unfoldable pub check_references : PackageRevision → List PackageRevision → Verdict
check_references pr = refuse_any (depends_on pr) referenced

-- isOwnerRepoGone, on the result of the lookup
unfoldable pub is_owner_repo_gone : GetResult → Bool
is_owner_repo_gone not_found = true
is_owner_repo_gone get_failed = false
is_owner_repo_gone (found repo) = repo.deleting

module _ (reader : Reader) where
  -- validateRepositoryAnnotation, and then validateWorkspaceUniqueness
  unfoldable pub check_repository_and_workspace : PackageRevision → Verdict
  check_repository_and_workspace pr =
      check_annotation (reader.get_repository pr.namespace pr.spec.repository_name)
      then_check on_list (check_unique pr) (reader.list_revisions pr.namespace)

  -- ValidateCreate
  unfoldable pub validate_create : PackageRevision → Verdict
  validate_create pr =
      refuse_if (is_some pr.spec.subpackage_operation) subpackage_at_creation
      then_check (if is_some pr.spec.source then check_initial pr.spec.lifecycle else allowed)
      then_check check_repository_and_workspace pr

  -- ValidateDelete
  unfoldable pub validate_delete : PackageRevision → Verdict
  validate_delete pr =
      if pr.deleting
      then allowed
      else on_list (check_references pr) (reader.list_revisions pr.namespace)
        then_check refuse_if
            (lifecycle_eq pr.spec.lifecycle published
              && not
                  (is_owner_repo_gone (reader.get_repository pr.namespace pr.spec.repository_name)))
            published_package
