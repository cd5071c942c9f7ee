-- ===== src/Controller/Ownership.antt =====
-- ownership.go of controllers/packagerevisions/pkg/controllers/packagerevision. The API server, the
-- content cache and the finalizer functions of controller-runtime are parameters.
use porch.Common.{
  ◌||◌, Bool, true, false, not, ◌&&◌, Text, eqb, is_empty, codes, List, [], ◌∷◌, Option, none, some,
  if◌then◌else◌,
}
use porch.Lifecycle.{published, lifecycle_eq}
use porch.PackageRevision.{PackageRevision, OwnerReference}

-- configapi.TypeRepository and configapi.GroupVersion
abbrev pub repository_kind : Text
repository_kind = codes "Repository"

abbrev pub config_version : Text
config_version = codes "config.porch.kpt.dev/v1alpha1"

-- `p != nil && *p`
abbrev pub holds : Option Bool → Bool
holds none = false
holds (some b) = b

abbrev pub names_repository : Text → OwnerReference → Bool
names_repository repo r = eqb r.kind repository_kind && eqb r.name repo

-- The tests in the loop of hasOwnerReference, for one reference.
abbrev pub is_complete : Text → OwnerReference → Bool
is_complete repo r =
    names_repository repo r
    && (eqb r.api_version config_version
        && (not (is_empty r.uid) && (holds r.is_controller && holds r.block_owner_deletion)))

-- hasOwnerReference
unfoldable pub has_owner_reference : List OwnerReference → Text → Bool
has_owner_reference [] repo = false
has_owner_reference (r ∷ rs) repo = if is_complete repo r then true else has_owner_reference rs repo

-- The name and the UID of a Repository object.
pub record RepositoryObject : Type 0 where
  pub name : Text
  pub uid : Text

abbrev pub desired_reference : RepositoryObject → OwnerReference
desired_reference repo = record {
  api_version = config_version;
  kind = repository_kind;
  name = repo.name;
  uid = repo.uid;
  is_controller = some true;
  block_owner_deletion = some true;
}

-- The loop of setOwnerReference and the append after it.
unfoldable pub replace_reference : RepositoryObject → List OwnerReference → List OwnerReference
replace_reference repo [] = desired_reference repo ∷ []
replace_reference repo (r ∷ rs) =
    if names_repository repo.name r
    then desired_reference repo ∷ rs
    else r ∷ replace_reference repo rs

-- client.Get of the Repository.
pub data Lookup : Type 0 where
  found : RepositoryObject → Lookup
  not_found lookup_failed : Lookup

-- setOwnerReference; `none` is the error
unfoldable pub set_owner_reference : Lookup → List OwnerReference → Option (List OwnerReference)
set_owner_reference (found repo) rs = some (replace_reference repo rs)
set_owner_reference _ rs = none

-- ownerRepoGone; `none` is the error
unfoldable pub owner_repo_gone : Lookup → Option Bool
owner_repo_gone (found repo) = some false
owner_repo_gone not_found = some true
owner_repo_gone lookup_failed = none

-- controllerutil.AddFinalizer and RemoveFinalizer, for porch.kpt.dev/packagerevisions: the finalizers
-- after the call and whether they have changed.
pub record Finalizers : Type 0 where
  pub add : List Text → List Text × Bool
  pub remove : List Text → List Text × Bool

abbrev pub keep_references :
    List OwnerReference → Option (List OwnerReference) → List OwnerReference × Bool
keep_references rs none = (rs, false)
keep_references rs (some new) = (new, true)

-- The owner references that ensureFinalizerAndOwner gives the object, and whether it sets them. A
-- failed lookup is only logged.
unfoldable pub ensured_references : Lookup → PackageRevision → List OwnerReference × Bool
ensured_references repo pr =
    if has_owner_reference pr.owner_references pr.spec.repository_name
    then (pr.owner_references, false)
    else keep_references pr.owner_references (set_owner_reference repo pr.owner_references)

-- What ensureFinalizerAndOwner puts into the object before its one patch, and `needsPatch`.
unfoldable pub with_finalizer_and_owner :
    Finalizers → Lookup → PackageRevision → PackageRevision × Bool
with_finalizer_and_owner f repo pr =
    let (finalizers, added) = f.add pr.finalizers in
    let (references, set) = ensured_references repo pr in
    (record pr { finalizers = finalizers; owner_references = references }, added || set)

-- The result of ContentCache.DeletePackage.
pub data DeleteResult : Type 0 where
  deleted package_not_found delete_failed : DeleteResult

-- deleteFromGit: is there no error?
unfoldable pub delete_from_git : DeleteResult → Bool
delete_from_git deleted = true
delete_from_git package_not_found = true
delete_from_git delete_failed = false

-- What the calls of one deletion return: the lookup of the repository, DeletePackage,
-- updateLatestRevisionLabels (true for no error), and the patch that removes the finalizer.
pub data PatchResult : Type 0 where
  accepted object_not_found refused : PatchResult

pub record Replies : Type 0 where
  pub owner : Lookup
  pub package_deleted : DeleteResult
  pub labels_updated : Bool
  pub finalizer_patch : PatchResult

-- How a reconciliation ends: with an empty result, a requeue, or an error.
pub data Ending : Type 0 where
  finished requeued failed : Ending

-- What a deletion did, in order: the calls that change something, and how it ended.
pub data Effect : Type 0 where
  delete_package update_labels patch_finalizer : Effect

pub record Deletion : Type 0 where
  pub effects : List Effect
  pub ending : Ending

abbrev pub behind : Effect → Deletion → Deletion
behind e d = record { effects = e ∷ d.effects; ending = d.ending }

abbrev pub ignoring_not_found : PatchResult → Ending
ignoring_not_found accepted = finished
ignoring_not_found object_not_found = finished
ignoring_not_found refused = failed

module _ (f : Finalizers) (r : Replies) (pr : PackageRevision) where
  -- The end of removeFinalizer: no patch where the object does not have the finalizer.
  abbrev pub patch_away : Bool → Deletion
  patch_away true = record {
    effects = patch_finalizer ∷ [];
    ending = ignoring_not_found r.finalizer_patch;
  }
  patch_away false = record { effects = []; ending = finished }

  -- removeFinalizer
  unfoldable pub remove_finalizer : Bool → Deletion
  remove_finalizer true = behind update_labels (
      if r.labels_updated
      then patch_away (f.remove pr.finalizers).1
      else record { effects = []; ending = requeued })
  remove_finalizer false = patch_away (f.remove pr.finalizers).1

  abbrev pub delete_published : Option Bool → Deletion
  delete_published none = record { effects = []; ending = failed }
  delete_published (some false) = record { effects = []; ending = finished }
  delete_published (some true) = behind delete_package (remove_finalizer false)

  -- handleDeletion
  unfoldable pub handle_deletion : Deletion
  handle_deletion =
      if lifecycle_eq pr.spec.lifecycle published
      then delete_published (owner_repo_gone r.owner)
      else behind delete_package (
          if delete_from_git r.package_deleted
          then remove_finalizer true
          else record { effects = []; ending = failed })
