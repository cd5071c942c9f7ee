-- ===== src/Key.antt =====
-- api/porch/key/types.go and util.go: the keys of repositories, packages and package revisions.
pub mod Matching
pub mod RoundTrip
use porch.Common.{
  ℕ, ◌-◌, Bool, true, false, not, ◌&&◌, ◌||◌, Text, List, [], ◌∷◌, ◌++◌, ◌==◌, Option, none, some,
  if◌then◌else◌, eqb, is_empty, has_byte, replace_byte, length, take,
}
use porch.Common.Int.{ℤ, pos, negsuc, ℤ_eq}
use porch.Names.Paths.{slash, dot, file_join, trim}
use porch.Names.Split.{split_in_3_on_delimiter, get_pr_workspace_name, after_last, at_dot}
use porch.Names.Objects.{
  Dns, NameError, valid_pkg_obj_name, valid_pkg_rev_obj_name, compose_pkg_obj_name,
  compose_pkg_rev_obj_name, no_errors,
}

pub record RepositoryKey : Type 0 where
  pub namespace : Text
  pub name : Text
  pub path : Text
  pub placeholder_ws_name : Text

pub record PackageKey : Type 0 where
  pub repo_key : RepositoryKey
  pub path : Text
  pub package_name : Text

pub record PackageRevisionKey : Type 0 where
  pub pkg_key : PackageKey
  pub revision : ℤ
  pub workspace_name : Text

-- `a != "" && a != b`, negated: an empty text matches any.
unfoldable pub text_matches : Text → Text → Bool
text_matches a b = is_empty a || eqb a b

-- `a != 0 && a != b`, negated: revision 0 matches any.
unfoldable pub revision_matches : ℤ → ℤ → Bool
revision_matches a b = ℤ_eq a (pos 0) || ℤ_eq a b

-- The guards of the three `Matches` methods, in their order.
unfoldable pub repository_matches : RepositoryKey → RepositoryKey → Bool
repository_matches k other =
    if not (text_matches k.namespace other.namespace)
    then false
    else if not (text_matches k.name other.name)
    then false
    else if not (text_matches k.path other.path)
    then false
    else if not (text_matches k.placeholder_ws_name other.placeholder_ws_name)
    then false
    else true

unfoldable pub package_matches : PackageKey → PackageKey → Bool
package_matches k other =
    if not (text_matches k.path other.path)
    then false
    else if not (text_matches k.package_name other.package_name)
    then false
    else repository_matches k.repo_key other.repo_key

unfoldable pub package_revision_matches : PackageRevisionKey → PackageRevisionKey → Bool
package_revision_matches k other =
    if not (revision_matches k.revision other.revision)
    then false
    else if not (text_matches k.workspace_name other.workspace_name)
    then false
    else package_matches k.pkg_key other.pkg_key

-- PackageRevisionKey.K8SName and ComposePkgRevObjName of util.go
unfoldable pub pkg_rev_k8s_name : PackageRevisionKey → Text
pkg_rev_k8s_name k =
    compose_pkg_rev_obj_name k.pkg_key.repo_key.name k.pkg_key.path k.pkg_key.package_name
      k.workspace_name

-- PackageKey.K8SName and ComposePkgObjName of util.go
unfoldable pub pkg_k8s_name : PackageKey → Text
pkg_k8s_name k = compose_pkg_obj_name k.repo_key.name k.path k.package_name

-- The name with the dots of its workspace turned into dashes.
unfoldable pub conditioned : Text → Text → Text
conditioned name workspace =
    if has_byte dot workspace
    then take (length name - length workspace) name ++ replace_byte dot b'-' workspace
    else name

-- What PkgRevK8sName2Key reads from a name: the parts of the conditioned name.
pub record NameParts : Type 0 where
  pub repo : Text
  pub path : Text
  pub package_name : Text
  pub workspace : Text

unfoldable pub pkg_rev_name_parts : Text → NameParts
pkg_rev_name_parts name =
    let pr = split_in_3_on_delimiter (conditioned name (get_pr_workspace_name name)) dot in
    let pkg = split_in_3_on_delimiter (pr.0 ++ (dot ∷ pr.1)) dot in
    record {
      repo = pr.0;
      path = replace_byte dot slash pkg.1;
      package_name = pkg.2;
      workspace = pr.2;
    }

module _ (dns : Dns) where
  -- PkgRevK8sName2Key; `none` is the error
  unfoldable pub pkg_rev_k8s_name_to_key : Text → Text → Option PackageRevisionKey
  pkg_rev_k8s_name_to_key namespace name =
      let p = pkg_rev_name_parts name in
      if no_errors (valid_pkg_rev_obj_name dns p.repo p.path p.package_name p.workspace)
      then some (record {
        pkg_key = record {
          repo_key = record {
            namespace = namespace;
            name = p.repo;
            path = [];
            placeholder_ws_name = [];
          };
          path = p.path;
          package_name = p.package_name;
        };
        revision = pos 0;
        workspace_name = get_pr_workspace_name name;
      })
      else none

  -- PkgK8sName2Key; `none` is the error
  unfoldable pub pkg_k8s_name_to_key : Text → Text → Option PackageKey
  pkg_k8s_name_to_key namespace name =
      let pkg = split_in_3_on_delimiter name dot in
      let path = replace_byte dot slash pkg.1 in
      if no_errors (valid_pkg_obj_name dns pkg.0 path pkg.2)
      then some (record {
        repo_key = record {
          namespace = namespace;
          name = pkg.0;
          path = [];
          placeholder_ws_name = [];
        };
        path = path;
        package_name = pkg.2;
      })
      else none

-- ToPkgPathname
unfoldable pub to_pkg_pathname : PackageKey → Text
to_pkg_pathname k = file_join k.path k.package_name

-- Everything before the last byte `c`, and what follows it; `none` if there is none.
unfoldable pub split_last : ℕ → Text → Option (Text × Text)
split_last c [] = none
split_last c (x ∷ s) = at (split_last c s)
  where
    at : Option (Text × Text) → Option (Text × Text)
    at (some (a, b)) = some (x ∷ a, b)
    at none = if x == c then some ([], s) else none

abbrev path_and_name : Text → Option (Text × Text) → Text × Text
path_and_name whole none = ([], whole)
path_and_name whole (some p) = p

-- SplitPackagePathName
unfoldable pub split_package_path_name : Text → Text × Text
split_package_path_name fullpath =
    let pkg_path = trim slash fullpath in path_and_name pkg_path (split_last slash pkg_path)

-- FromFullPathname
unfoldable pub from_full_pathname : RepositoryKey → Text → PackageKey
from_full_pathname repo_key fullpath =
    let (path, name) = split_package_path_name fullpath in
    record { repo_key = repo_key; path = path; package_name = name }
