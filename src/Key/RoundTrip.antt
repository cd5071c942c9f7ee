-- ===== src/Key/RoundTrip.antt =====
-- A PackageRevision object's name, composed from a key and read back (api/porch/key/types.go).

use porch.Common.{
  true, false, ◌≡◌, refl, ap, sym, ◌∙◌, Text, List, [], ◌∷◌, ◌++◌, some, is_empty, has_byte, All,
  All-snoc,
}
use porch.Common.Int.{pos}
use porch.Names.Paths.{slash, dot, join_with}
use porch.Names.Split.{get_pr_workspace_name}
use porch.Names.Objects.{Dns, no_errors, valid_pkg_rev_obj_name, compose_pkg_rev_obj_name}
use porch.Names.Segments.{
  IsSegment, AreSegments, FreeOf, All-no_dot, replace_byte-join_with, join_with-snoc,
}
use porch.Names.Compose.{
  compose_pkg_rev_lem, join_with-cons, split_in_3-join, get_pr_workspace_name_lem, IsUnambiguous,
}
use porch.Key.{
  PackageRevisionKey, pkg_rev_k8s_name, pkg_rev_name_parts, conditioned, pkg_rev_k8s_name_to_key,
}

-- A key whose fields are elements of an object's name; `elements` are those of the package's path.
pub record IsComposable (k : PackageRevisionKey) (elements : List Text) : Type 0 where
  pub repo_segment : IsSegment k.pkg_key.repo_key.name
  pub path_segments : AreSegments elements
  pub path_joined : k.pkg_key.path ≡ join_with slash elements
  pub package_segment : IsSegment k.pkg_key.package_name
  pub workspace_filled : is_empty k.workspace_name ≡ false
  pub workspace_no_dot : has_byte dot k.workspace_name ≡ false
  pub unambiguous : IsUnambiguous (pkg_rev_k8s_name k) k.workspace_name

-- The key without what its name does not hold: the revision, and the repository's path and
-- placeholder workspace.
abbrev pub named_part : PackageRevisionKey → PackageRevisionKey
named_part k = record {
  pkg_key = record {
    repo_key = record {
      namespace = k.pkg_key.repo_key.namespace;
      name = k.pkg_key.repo_key.name;
      path = [];
      placeholder_ws_name = [];
    };
    path = k.pkg_key.path;
    package_name = k.pkg_key.package_name;
  };
  revision = pos 0;
  workspace_name = k.workspace_name;
}

-- The elements of the name, joined by dots.
abbrev composed : Text → List Text → Text → Text → Text
composed repo ts p ws = join_with dot (repo ∷ ((ts ++ p ∷ []) ++ ws ∷ []))

module _ (repo : Text) (ts : List Text) (p ws : Text) (hr : IsSegment repo) (ht : AreSegments ts)
    (hp : IsSegment p) (hw : FreeOf dot ws) where
  All-front : All (FreeOf dot) (repo ∷ (ts ++ p ∷ []))
  All-front = (hr.no_dot, All-snoc (FreeOf dot) ts p (All-no_dot ts ht) hp.no_dot)

  All-parts : All (FreeOf dot) (repo ∷ ((ts ++ p ∷ []) ++ ws ∷ []))
  All-parts = (All-front.0, All-snoc (FreeOf dot) (ts ++ p ∷ []) ws All-front.1 hw)

  -- The name ends in a dot and the workspace.
  composed_end : composed repo ts p ws ≡ join_with dot (repo ∷ (ts ++ p ∷ [])) ++ (dot ∷ ws)
  composed_end = join_with-snoc dot repo (ts ++ p ∷ []) ws

  module _ (u : IsUnambiguous (composed repo ts p ws) ws) where
    workspace_of : get_pr_workspace_name (composed repo ts p ws) ≡ ws
    workspace_of =
        ap get_pr_workspace_name composed_end
        ∙ get_pr_workspace_name_lem (join_with dot (repo ∷ (ts ++ p ∷ []))) ws hw
            (rw composed_end at u)

    conditioned_of :
        conditioned (composed repo ts p ws) (get_pr_workspace_name (composed repo ts p ws))
        ≡ (composed repo ts p ws)
    conditioned_of =
        ap (conditioned (composed repo ts p ws)) workspace_of ∙ unfold conditioned in rw hw refl

    parts_of :
        pkg_rev_name_parts (composed repo ts p ws)
        ≡ record { repo = repo; path = join_with slash ts; package_name = p; workspace = ws }
    unfolding pkg_rev_name_parts
    parts_of =
        rw
          (
            conditioned_of,
            split_in_3-join repo (ts ++ p ∷ []) ws All-parts,
            ← join_with-cons dot repo ts p,
            split_in_3-join repo ts p All-front,
            replace_byte-join_with dot slash ts (All-no_dot ts ht),
          )
          refl

abbrev pub IsValidName : Dns → PackageRevisionKey → Type 0
IsValidName dns k =
    no_errors (
      valid_pkg_rev_obj_name dns k.pkg_key.repo_key.name k.pkg_key.path k.pkg_key.package_name
        k.workspace_name)
    ≡ true

module _ (k : PackageRevisionKey) (ts : List Text) (c : IsComposable k ts) where
  abbrev repo : Text
  repo = k.pkg_key.repo_key.name

  abbrev pkg : Text
  pkg = k.pkg_key.package_name

  name_lem : pkg_rev_k8s_name k ≡ composed repo ts pkg k.workspace_name
  unfolding pkg_rev_k8s_name
  name_lem =
      ap (λ t. compose_pkg_rev_obj_name repo t pkg k.workspace_name) c.path_joined
      ∙ compose_pkg_rev_lem repo ts pkg k.workspace_name c.repo_segment c.path_segments
          c.package_segment c.workspace_filled

  unambiguous : IsUnambiguous (composed repo ts pkg k.workspace_name) k.workspace_name
  unambiguous = rw name_lem at c.unambiguous

  workspace_read : get_pr_workspace_name (pkg_rev_k8s_name k) ≡ k.workspace_name
  workspace_read =
      ap get_pr_workspace_name name_lem
      ∙ workspace_of repo ts pkg k.workspace_name c.repo_segment c.path_segments c.package_segment
          c.workspace_no_dot unambiguous

  parts_read : pkg_rev_name_parts (pkg_rev_k8s_name k) ≡ record {
    repo = repo;
    path = k.pkg_key.path;
    package_name = pkg;
    workspace = k.workspace_name;
  }
  parts_read =
      ap pkg_rev_name_parts name_lem
      ∙ parts_of repo ts pkg k.workspace_name c.repo_segment c.path_segments c.package_segment
          c.workspace_no_dot unambiguous
      ∙ ap (λ t. record { repo = repo; path = t; package_name = pkg; workspace = k.workspace_name })
          (sym c.path_joined)

-- A key whose fields are free of dots, whose name is valid and holds no version-like part before the
-- workspace, is read back from its name, but for what the name does not hold.
pub pkg_rev_k8s_name-roundtrip :
    (dns : Dns) (k : PackageRevisionKey) (elements : List Text)
    → IsComposable k elements
    → IsValidName dns k
    → pkg_rev_k8s_name_to_key dns k.pkg_key.repo_key.namespace (pkg_rev_k8s_name k)
      ≡ some (named_part k)
unfolding pkg_rev_k8s_name_to_key
pkg_rev_k8s_name-roundtrip dns k ts c v = rw (parts_read k ts c, workspace_read k ts c, v) refl
