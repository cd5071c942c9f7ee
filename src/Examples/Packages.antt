-- ===== src/Examples/Packages.antt =====
-- Packages of one repository whose paths are close.
use porch.Common.{
  true, false, ◌≡◌, ◌≢◌, ◌⊎◌, inl, inr, refl, Text, codes, [], ◌∷◌, none, eqb, eqb_iff, has_prefix,
}
use porch.Common.Int.{pos}
use porch.Names.Segments.{IsSegment}
use porch.Key.{PackageRevisionKey}
use porch.Packages.{paths_overlap, validate_package_path_overlap, existing_paths, find_overlap}
use porch.Packages.Nested.{nested-unseen}
use porch.Key.{to_pkg_pathname}

abbrev nested : PackageRevisionKey
nested = record {
  pkg_key = record {
    repo_key = record {
      namespace = codes "default";
      name = codes "repo";
      path = [];
      placeholder_ws_name = [];
    };
    path = codes "a";
    package_name = codes "b";
  };
  revision = pos 1;
  workspace_name = codes "v1";
}

do_overlap : paths_overlap (codes "a/b") (codes "a") ≡ true
unfolding paths_overlap eqb has_prefix
do_overlap = refl

is_accepted : validate_package_path_overlap (codes "c") (codes "repo") (nested ∷ []) ≡ none
unfolding validate_package_path_overlap existing_paths find_overlap paths_overlap eqb has_prefix
is_accepted = refl

names_differ : eqb (codes "b") (codes "a") ≡ false
unfolding eqb
names_differ = refl

other_name : codes "b" ≢ codes "a"
other_name e = cc ((eqb_iff (codes "b") (codes "a")).1 e, names_differ)

any-IsSegment : (c : Text) → c ≡ codes "a" ⊎ c ≡ codes "b" → IsSegment c
any-IsSegment c (inl e) = rw e (record { filled = refl; no_dot = refl; no_slash = refl })
any-IsSegment c (inr e) = rw e (record { filled = refl; no_dot = refl; no_slash = refl })

nested-unseen_example :
    (paths_overlap (codes "a") (to_pkg_pathname nested.pkg_key) ≡ true)
    × (validate_package_path_overlap (codes "a") (codes "repo") (nested ∷ []) ≡ none)
nested-unseen_example =
    nested-unseen (codes "a") (codes "repo") nested (any-IsSegment (codes "a") (inl refl))
      (any-IsSegment (codes "b") (inr refl)) refl other_name
