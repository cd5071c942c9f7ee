-- ===== src/Examples/Key.antt =====
-- Keys of one repository.
use porch.Common.{true, ◌≡◌, inr, refl, Text, codes, [], ◌∷◌, some, eqb, contains, has_prefix}
use porch.Common.Int.{ℤ, pos}
use porch.Names.Paths.{join_with}
use porch.Names.Objects.{
  Dns, valid_pkg_rev_obj_name, valid_pkg_name_part, validate_repository, validate_directory_name,
  without_slashes, validate_k8s_name, add_part, valid_object,
}
use porch.Key.{
  PackageRevisionKey, package_revision_matches, package_matches, repository_matches,
  revision_matches, text_matches, pkg_rev_k8s_name, pkg_rev_k8s_name_to_key,
}
use porch.Key.RoundTrip.{IsComposable, IsValidName, named_part, pkg_rev_k8s_name-roundtrip}

-- Checks that find nothing wrong.
abbrev permissive : Dns
permissive = record { label = λ t. []; subdomain = λ t. [] }

abbrev key_of : Text → Text → ℤ → PackageRevisionKey
key_of package_name workspace revision = record {
  pkg_key = record {
    repo_key = record {
      namespace = codes "default";
      name = codes "repo";
      path = [];
      placeholder_ws_name = codes "main";
    };
    path = codes "a/b";
    package_name = package_name;
  };
  revision = revision;
  workspace_name = workspace;
}

abbrev any_revision : PackageRevisionKey
any_revision = record {
  pkg_key = record {
    repo_key = record { namespace = []; name = codes "repo"; path = []; placeholder_ws_name = [] };
    path = [];
    package_name = [];
  };
  revision = pos 0;
  workspace_name = [];
}

abbrev third : PackageRevisionKey
third = key_of (codes "pkg") (codes "v3") (pos 3)

abbrev any_workspace : PackageRevisionKey
any_workspace = key_of (codes "pkg") [] (pos 0)

composable : IsComposable third (codes "a" ∷ codes "b" ∷ [])
unfolding join_with
composable = record {
  repo_segment = record { filled = refl; no_dot = refl; no_slash = refl };
  path_segments = (
    record { filled = refl; no_dot = refl; no_slash = refl },
    (record { filled = refl; no_dot = refl; no_slash = refl }, tt),
  );
  path_joined = refl;
  package_segment = record { filled = refl; no_dot = refl; no_slash = refl };
  workspace_filled = refl;
  workspace_no_dot = refl;
  unambiguous = inr refl;
}

valid_name : IsValidName permissive third
unfolding valid_pkg_rev_obj_name valid_pkg_name_part validate_repository validate_directory_name
    without_slashes contains has_prefix validate_k8s_name add_part valid_object
valid_name = refl

third_matches : package_revision_matches any_workspace third ≡ true
unfolding package_revision_matches package_matches repository_matches revision_matches text_matches
    eqb
third_matches = refl

any_matches : package_revision_matches any_revision any_workspace ≡ true
unfolding package_revision_matches package_matches repository_matches revision_matches text_matches
    eqb
any_matches = refl

pkg_rev_k8s_name-roundtrip_example :
    pkg_rev_k8s_name_to_key permissive (codes "default") (pkg_rev_k8s_name third)
    ≡ some (named_part third)
pkg_rev_k8s_name-roundtrip_example =
    pkg_rev_k8s_name-roundtrip permissive third (codes "a" ∷ codes "b" ∷ []) composable valid_name
