-- ===== src/Examples/Git.antt =====
-- Two revisions of one package in a git repository.
use porch.Common.{false, ◌≡◌, ◌↔◌, refl, Text, codes, eqb, has_prefix, List, [], ◌∷◌, none, some}
use porch.Common.Int.{ℤ, pos}
use porch.Lifecycle.{published, deletion_proposed, lifecycle_eq, is_published}
use porch.Key.{PackageRevisionKey, split_last}
use porch.DataSize.{decimal, digits_onto}
use porch.Git.{
  join_elements, to_full_pathname, published_path, published_element,
  get_draft_branch_name_in_local, get_deletion_proposed_branch_name_in_local,
  is_draft_branch_name_in_local, is_proposed_branch_name_in_local,
  get_proposed_branch_name_in_local, trim_optional_prefix, cut_suffix, create_draft_name,
  create_deletion_proposed_name, create_final_tag_name_in_local, parse_draft_name, ref_in_local,
}
use porch.Git.Lifecycles.{
  GitPackageRevision, RefUpdate, PushResult, push_failed, panicked, get_lifecycle, update_lifecycle,
  filled, lifecycle_at, check_published_lifecycle, cached_lifecycle, update_deletion_proposed_cache,
  deletion_proposed_branches, move_lifecycle, propose_deletion,
}
use porch.Git.Moves.{is_unpublished}
use porch.Git.Updates.{update_lifecycle-shown, update_lifecycle-panics_iff}

abbrev pub key_of : Text → ℤ → PackageRevisionKey
key_of workspace revision = record {
  pkg_key = record {
    repo_key = record {
      namespace = codes "default";
      name = codes "repo";
      path = codes "catalog";
      placeholder_ws_name = codes "main";
    };
    path = [];
    package_name = codes "basens";
  };
  revision = revision;
  workspace_name = workspace;
}

draft_name : create_draft_name (key_of (codes "v2") (pos 0)) ≡ codes "drafts/catalog/basens/v2"
unfolding create_draft_name join_elements to_full_pathname eqb
draft_name = refl

deletion_proposed_name :
    create_deletion_proposed_name (key_of (codes "v1") (pos 12))
    ≡ codes "deletionProposed/catalog/basens/v12"
unfolding create_deletion_proposed_name published_path join_elements to_full_pathname eqb
    published_element decimal digits_onto
deletion_proposed_name = refl

tag_name :
    create_final_tag_name_in_local (key_of (codes "first") (pos 0))
    ≡ codes "refs/tags/catalog/basens/first"
unfolding create_final_tag_name_in_local published_path join_elements to_full_pathname eqb
    published_element
tag_name = refl

draft_parsed :
    parse_draft_name (ref_in_local (codes "drafts/catalog/basens/v2"))
    ≡ some (codes "catalog/basens", codes "v2")
unfolding parse_draft_name get_draft_branch_name_in_local get_proposed_branch_name_in_local
    trim_optional_prefix ref_in_local cut_suffix split_last
draft_parsed = refl

no_workspace : parse_draft_name (ref_in_local (codes "proposed/basens")) ≡ none
unfolding parse_draft_name get_draft_branch_name_in_local get_proposed_branch_name_in_local
    trim_optional_prefix ref_in_local cut_suffix split_last
no_workspace = refl

abbrev first : GitPackageRevision
first = record {
  pr_key = key_of (codes "v1") (pos 1);
  ref = some (codes "refs/tags/catalog/basens/v1");
  commit = codes "0123";
}

-- The same revision, found on the main branch.
abbrev first_on_main : GitPackageRevision
first_on_main = record { pr_key = first.pr_key; ref = none; commit = codes "4567" }

abbrev refused : RefUpdate → PushResult
refused u = push_failed

abbrev names : List Text
names = codes "refs/remotes/origin/main" ∷ codes "refs/tags/catalog/basens/v1" ∷ []

names-filled : filled (some names) none ≡ some []
unfolding filled update_deletion_proposed_cache deletion_proposed_branches
    get_deletion_proposed_branch_name_in_local trim_optional_prefix
names-filled = refl

before : (get_lifecycle (some names) none first_on_main).0 ≡ published
unfolding get_lifecycle lifecycle_at check_published_lifecycle cached_lifecycle filled
    update_deletion_proposed_cache deletion_proposed_branches
    get_deletion_proposed_branch_name_in_local trim_optional_prefix
before = refl

update_lifecycle-shown_example :
    (get_lifecycle
      (some names)
      (update_lifecycle refused first (some names) none deletion_proposed).1
      first_on_main).0
    ≡ deletion_proposed
unfolding lifecycle_eq get_lifecycle is_draft_branch_name_in_local has_prefix
    is_proposed_branch_name_in_local lifecycle_at check_published_lifecycle cached_lifecycle filled
    update_deletion_proposed_cache deletion_proposed_branches
    get_deletion_proposed_branch_name_in_local trim_optional_prefix eqb
    create_deletion_proposed_name published_path join_elements decimal digits_onto published_element
    to_full_pathname update_lifecycle move_lifecycle is_published propose_deletion
update_lifecycle-shown_example =
    update_lifecycle-shown refused first (some names) none [] first_on_main deletion_proposed
      names-filled

update_lifecycle-panics_iff_example :
    ((update_lifecycle refused first none none deletion_proposed).0 ≡ panicked) ↔ (
      (filled none none ≡ none)
      × (is_unpublished first.ref ≡ false)
      × (deletion_proposed ≡ deletion_proposed))
update_lifecycle-panics_iff_example =
    update_lifecycle-panics_iff refused first none none deletion_proposed

panics : (update_lifecycle refused first none none deletion_proposed).0 ≡ panicked
unfolding filled update_deletion_proposed_cache is_draft_branch_name_in_local has_prefix
    is_proposed_branch_name_in_local
panics =
    (update_lifecycle-panics_iff refused first none none deletion_proposed).1 (refl, refl, refl)
