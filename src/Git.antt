-- ===== src/Git.antt =====
-- pkg/externalrepo/git/ref.go: the names of the branches and tags of a package revision in git.
pub mod Lifecycles
pub mod Deletion
pub mod Moves
pub mod Removal
pub mod Updates
use porch.Common.{
  ℕ, ◌++◌, Bool, false, Text, List, [], ◌∷◌, ◌==◌, Option, none, some, if◌then◌else◌, codes,
  has_prefix,
}
use porch.Common.Int.{ℤ, pos, negsuc}
use porch.Names.Paths.{slash, clean, join_with}
use porch.DataSize.{decimal}
use porch.Key.{PackageKey, PackageRevisionKey, split_last}

-- filepath.Join: the elements from the first that is not empty
unfoldable pub join_elements : List Text → Text
unfolding clean join_with
join_elements [] = []
join_elements ([] ∷ es) = join_elements es
join_elements ((x ∷ a) ∷ es) = clean (join_with slash ((x ∷ a) ∷ es))

-- PackageKey.ToFullPathname
unfoldable pub to_full_pathname : PackageKey → Text
to_full_pathname k = join_elements (k.repo_key.path ∷ k.path ∷ k.package_name ∷ [])

abbrev pub branch_prefix_in_local_repo : Text
branch_prefix_in_local_repo = codes "refs/remotes/origin/"

abbrev pub tags_prefix_in_local_repo : Text
tags_prefix_in_local_repo = codes "refs/tags/"

abbrev pub drafts_prefix : Text
drafts_prefix = codes "drafts/"

abbrev pub proposed_prefix : Text
proposed_prefix = codes "proposed/"

abbrev pub deletion_proposed_prefix : Text
deletion_proposed_prefix = codes "deletionProposed/"

-- branchName.refInLocal
unfoldable pub ref_in_local : Text → Text
ref_in_local branch = branch_prefix_in_local_repo ++ branch

-- trimOptionalPrefix, with the prefix first; `none` is false
unfoldable pub trim_optional_prefix : Text → Text → Option Text
trim_optional_prefix [] s = some s
trim_optional_prefix (x ∷ p) [] = none
trim_optional_prefix (x ∷ p) (y ∷ s) =
    let rest = trim_optional_prefix p s in if x == y then rest else none

unfoldable pub is_draft_branch_name_in_local : Text → Bool
is_draft_branch_name_in_local n = has_prefix (branch_prefix_in_local_repo ++ drafts_prefix) n

unfoldable pub is_proposed_branch_name_in_local : Text → Bool
is_proposed_branch_name_in_local n = has_prefix (branch_prefix_in_local_repo ++ proposed_prefix) n

unfoldable pub get_draft_branch_name_in_local : Text → Option Text
get_draft_branch_name_in_local = trim_optional_prefix (branch_prefix_in_local_repo ++ drafts_prefix)

unfoldable pub get_proposed_branch_name_in_local : Text → Option Text
get_proposed_branch_name_in_local =
    trim_optional_prefix (branch_prefix_in_local_repo ++ proposed_prefix)

unfoldable pub get_deletion_proposed_branch_name_in_local : Text → Option Text
get_deletion_proposed_branch_name_in_local =
    trim_optional_prefix (branch_prefix_in_local_repo ++ deletion_proposed_prefix)

-- createDraftName
unfoldable pub create_draft_name : PackageRevisionKey → Text
create_draft_name k =
    drafts_prefix ++ join_elements (to_full_pathname k.pkg_key ∷ k.workspace_name ∷ [])

-- createProposedName
unfoldable pub create_proposed_name : PackageRevisionKey → Text
create_proposed_name k =
    proposed_prefix ++ join_elements (to_full_pathname k.pkg_key ∷ k.workspace_name ∷ [])

-- The last element of the name of a published revision: "v" and the revision if it is above 0,
-- the workspace if it is not.
unfoldable pub published_element : ℤ → Text → Text
published_element (pos ℕ.zero) workspace = slash ∷ workspace
published_element (pos (ℕ.suc n)) workspace = b'v' ∷ decimal (ℕ.suc n) []
published_element (negsuc n) workspace = slash ∷ workspace

unfoldable pub published_path : PackageRevisionKey → Text
published_path k =
    join_elements (to_full_pathname k.pkg_key ∷ published_element k.revision k.workspace_name ∷ [])

-- createDeletionProposedName
unfoldable pub create_deletion_proposed_name : PackageRevisionKey → Text
create_deletion_proposed_name k = deletion_proposed_prefix ++ published_path k

-- createFinalTagNameInLocal
unfoldable pub create_final_tag_name_in_local : PackageRevisionKey → Text
create_final_tag_name_in_local k = tags_prefix_in_local_repo ++ published_path k

-- The suffix of a draft's reference cut at its last slash, which may not be its first byte.
unfoldable pub cut_suffix : Option (Text × Text) → Option (Text × Text)
cut_suffix none = none
cut_suffix (some ([], workspace)) = none
cut_suffix (some (x ∷ path, workspace)) = some (x ∷ path, workspace)

-- parseDraftName; `none` is the error
unfoldable pub parse_draft_name : Text → Option (Text × Text)
parse_draft_name n = suffix (get_draft_branch_name_in_local n) (get_proposed_branch_name_in_local n)
  where
    suffix : Option Text → Option Text → Option (Text × Text)
    suffix (some s) p = cut_suffix (split_last slash s)
    suffix none (some s) = cut_suffix (split_last slash s)
    suffix none none = none
