-- ===== src/Examples/Names.antt =====
-- A package named like the start of a version.
use porch.Common.{◌≡◌, refl, codes, []}
use porch.Names.Split.{get_pr_workspace_name}
use porch.Names.Objects.{compose_pkg_rev_obj_name}
use porch.Names.Segments.{IsSegment}
use porch.Names.Ambiguous.{version_package-misread}

repo-IsSegment : IsSegment (codes "repo")
repo-IsSegment = record { filled = refl; no_dot = refl; no_slash = refl }

version_package-misread_example :
    get_pr_workspace_name (compose_pkg_rev_obj_name (codes "repo") [] (codes "v1") (codes "2"))
    ≡ codes "v1.2"
version_package-misread_example =
    version_package-misread (codes "repo") (codes "1") (codes "2") repo-IsSegment refl refl refl
