-- ===== src/Variants.antt =====
-- controllers/packagevariants/pkg/controllers/packagevariant/packagevariant_controller.go: which package
-- revisions a PackageVariant keeps, adopts and removes. The API server is a parameter: each call that
-- changes an object is an effect, and the code goes on after a refused one.
pub mod Targets
pub mod Chosen
pub mod Safety
pub mod Workspace
use porch.Common.{
  ℕ, Bool, true, false, not, ◌&&◌, ◌||◌, Text, eqb, is_empty, codes, List, [], ◌∷◌, ◌++◌, Option,
  none, some, if◌then◌else◌, any,
}
use porch.Common.Int.{ℤ, pos, negsuc, ℤ_lt}
use porch.Common.Maps.{Dict, get, put}
use porch.Lifecycle.{
  Lifecycle, unset, draft, proposed, published, deletion_proposed, other, is_published,
}
use porch.PackageRevision.{OwnerReference}

-- The v1alpha1 PackageRevision, with the fields that are read here.
pub record Revision : Type 0 where
  pub name : Text
  pub owners : List OwnerReference
  pub labels : Dict
  pub annotations : Dict
  pub repository_name : Text
  pub package_name : Text
  pub workspace_name : Text
  pub revision : ℤ
  pub lifecycle : Lifecycle

pub record Upstream : Type 0 where
  pub repo : Text
  pub package_name : Text
  pub workspace_name : Text

pub record Downstream : Type 0 where
  pub repo : Text
  pub package_name : Text

-- The PackageVariant. Its reference is what constructOwnerReference builds from its name and UID.
pub record Variant : Type 0 where
  pub uid : Text
  pub reference : OwnerReference
  pub upstream : Option Upstream
  pub downstream : Option Downstream
  pub adoption_policy : Text
  pub deletion_policy : Text
  pub labels : Dict
  pub annotations : Dict

abbrev pub adopt_none : Text
adopt_none = codes "adoptNone"

abbrev pub adopt_existing : Text
adopt_existing = codes "adoptExisting"

abbrev pub delete_policy : Text
delete_policy = codes "delete"

abbrev pub orphan_policy : Text
orphan_policy = codes "orphan"

-- A call that changes an object, in the order of the calls.
pub data Effect : Type 0 where
  delete_object update_object : Revision → Effect

-- hasOurOwnerReference
unfoldable pub has_our_owner_reference : Variant → List OwnerReference → Bool
has_our_owner_reference pv [] = false
has_our_owner_reference pv (o ∷ os) =
    if eqb o.uid pv.uid then true else has_our_owner_reference pv os

-- removeOwnerRefByUID
unfoldable pub remove_owner_ref_by_uid : Text → List OwnerReference → List OwnerReference
remove_owner_ref_by_uid uid [] = []
remove_owner_ref_by_uid uid (o ∷ os) =
    let rest = remove_owner_ref_by_uid uid os in if eqb o.uid uid then rest else o ∷ rest

-- orphanPackageRevision
unfoldable pub orphan_package_revision : Variant → Revision → List Effect
orphan_package_revision pv pr =
    update_object (record pr { owners = remove_owner_ref_by_uid pv.uid pr.owners }) ∷ []

-- deletePackageRevision
unfoldable pub delete_package_revision : Lifecycle → Revision → List Effect
delete_package_revision unset pr = delete_object pr ∷ []
delete_package_revision draft pr = delete_object pr ∷ []
delete_package_revision proposed pr = delete_object pr ∷ []
delete_package_revision published pr =
    update_object (record pr { lifecycle = deletion_proposed }) ∷ []
delete_package_revision deletion_proposed pr = []
delete_package_revision (other l) pr = []

-- deleteOrOrphan
unfoldable pub delete_or_orphan : Variant → Revision → List Effect
delete_or_orphan pv pr =
    if is_empty pv.deletion_policy || eqb pv.deletion_policy delete_policy
    then delete_package_revision pr.lifecycle pr
    else if eqb pv.deletion_policy orphan_policy
    then orphan_package_revision pv pr
    else []

-- maps.Copy(dst, src), with the destination first
unfoldable pub copy_map : Dict → Dict → Dict
copy_map dst [] = dst
copy_map dst ((k, v) ∷ src) = copy_map (put k v dst) src

-- adoptPackageRevision: the object after it
unfoldable pub adopt_package_revision : Variant → Revision → Revision
adopt_package_revision pv pr = record pr {
  owners = pr.owners ++ pv.reference ∷ [];
  labels = copy_map pr.labels pv.labels;
  annotations = copy_map pr.annotations pv.annotations;
}

-- compare: the latest published revision so far, and its number
unfoldable pub compare_published : Revision → Option Revision × ℤ → Option Revision × ℤ
compare_published pr latest = if ℤ_lt latest.1 pr.revision then (some pr, pr.revision) else latest

-- What the loop of getDownstreamPRs has found, and the calls it has made.
pub record Found : Type 0 where
  pub effects : List Effect
  pub drafts : List Revision
  pub latest : Option Revision × ℤ

abbrev pub is_target : Downstream → Revision → Bool
is_target d pr = eqb pr.repository_name d.repo && eqb pr.package_name d.package_name

abbrev pub keep : Revision → Found → Found
keep pr f =
    if is_published pr.lifecycle
    then record f { latest = compare_published pr f.latest }
    else record f { drafts = f.drafts ++ pr ∷ [] }

abbrev pub also : List Effect → Found → Found
also es f = record f { effects = f.effects ++ es }

module _ (pv : Variant) (d : Downstream) where
  -- The body of the loop.
  unfoldable pub visit : Found → Revision → Found
  visit f pr =
      let owned = has_our_owner_reference pv pr.owners in
      if not owned && not (eqb pv.adoption_policy adopt_existing)
      then f
      else if not (is_target d pr)
      then (if owned then also (delete_or_orphan pv pr) f else f)
      else if owned
      then keep pr f
      else keep (adopt_package_revision pv pr)
          (also (update_object (adopt_package_revision pv pr) ∷ []) f)

  unfoldable pub visit_all : Found → List Revision → Found
  visit_all f [] = f
  visit_all f (pr ∷ prs) = visit_all (visit f pr) prs

  abbrev pub start : Found
  start = record { effects = []; drafts = []; latest = (none, negsuc 0) }

  abbrev pub chosen : List Revision → Option Revision → List Revision
  chosen [] none = []
  chosen [] (some pr) = pr ∷ []
  chosen (pr ∷ prs) latest = pr ∷ prs

  -- getDownstreamPRs: the target revisions and the calls that it made
  unfoldable pub get_downstream_prs : List Revision → List Revision × List Effect
  get_downstream_prs prs = let f = visit_all start prs in (chosen f.drafts f.latest.0, f.effects)

-- getUpstreamPR; `none` is the error
abbrev pub is_upstream : Upstream → Revision → Bool
is_upstream u pr =
    if is_empty u.workspace_name
    then eqb pr.workspace_name (codes "main")
    else eqb pr.workspace_name u.workspace_name

unfoldable pub get_upstream_pr : Upstream → List Revision → Option Revision
get_upstream_pr u [] = none
get_upstream_pr u (pr ∷ prs) =
    if not (eqb pr.repository_name u.repo) || not (eqb pr.package_name u.package_name)
    then get_upstream_pr u prs
    else if is_upstream u pr
    then some pr
    else get_upstream_pr u prs
