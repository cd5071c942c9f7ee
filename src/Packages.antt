-- ===== src/Packages.antt =====
-- pkg/repository/util.go: conflicts between the paths of packages, conditions, and the size of a
-- package's files.
pub mod Overlap
pub mod Nested
use porch.Common.{
  ℕ, ◌+◌, Bool, true, false, not, ◌&&◌, Text, eqb, has_prefix, List, [], ◌∷◌, ◌++◌, Option, none,
  some, if◌then◌else◌, length,
}
use porch.Common.Maps.{Dict}
use porch.Names.Paths.{slash}
use porch.Key.{PackageRevisionKey}

-- PathsOverlap
unfoldable pub paths_overlap : Text → Text → Bool
paths_overlap path1 path2 =
    if eqb path1 path2
    then false
    else if has_prefix (path1 ++ slash ∷ []) (path2 ++ slash ∷ [])
    then true
    else if has_prefix (path2 ++ slash ∷ []) (path1 ++ slash ∷ [])
    then true
    else false

-- The errors of ValidatePackagePathOverlap.
pub data PathConflict : Type 0 where
  already_exists nested : Text → PathConflict

-- The first loop: the paths of the packages of the repository, or the error for a package of the
-- name.
unfoldable pub existing_paths :
    Text → Text → List PackageRevisionKey → List Text → List Text × Option PathConflict
existing_paths package_name repo [] paths = (paths, none)
existing_paths package_name repo (k ∷ ks) paths =
    if eqb k.pkg_key.package_name package_name && eqb k.pkg_key.repo_key.name repo
    then (paths, some (already_exists package_name))
    else if eqb k.pkg_key.repo_key.name repo
    then existing_paths package_name repo ks (k.pkg_key.package_name ∷ paths)
    else existing_paths package_name repo ks paths

-- The second loop.
unfoldable pub find_overlap : Text → List Text → Option PathConflict
find_overlap new_path [] = none
find_overlap new_path (p ∷ ps) =
    if paths_overlap new_path p then some (nested p) else find_overlap new_path ps

abbrev pub or_overlap : Text → List Text × Option PathConflict → Option PathConflict
or_overlap new_path (paths, none) = find_overlap new_path paths
or_overlap new_path (paths, some e) = some e

-- ValidatePackagePathOverlap, for the package name and the repository of the new revision and the keys
-- of the existing ones
unfoldable pub validate_package_path_overlap :
    Text → Text → List PackageRevisionKey → Option PathConflict
validate_package_path_overlap package_name repo existing =
    or_overlap package_name (existing_paths package_name repo existing [])

-- CalculateResourcesSize; a map of files as an association list
unfoldable pub calculate_resources_size : Dict → ℕ
calculate_resources_size [] = 0
calculate_resources_size ((name, contents) ∷ files) =
    length contents + calculate_resources_size files
