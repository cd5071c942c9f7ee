-- ===== src/Examples/Removal.antt =====
-- The deletion of a draft and of an approved revision in a git repository.
use porch.Common.{◌≡◌, refl, codes, [], ◌∷◌, some, none, eqb, has_prefix}
use porch.Common.Int.{pos}
use porch.DataSize.{decimal, digits_onto}
use porch.Git.{
  join_elements, to_full_pathname, published_path, published_element, is_draft_branch_name_in_local,
  create_final_tag_name_in_local,
}
use porch.Git.Lifecycles.{PushResult, pushed, delete_ref}
use porch.Git.Deletion.{
  Target, git_target, Plan, Repo, reference_name, push_deletion, after_push, delete_found,
  delete_reference, delete_package_revision_once, foreign_tag, refuse,
}
use porch.Git.Removal.{IsSafe, delete-IsSafe}
use porch.Examples.Git.{key_of}

abbrev repo : Repo
repo = record {
  is_tag = has_prefix (codes "refs/tags/");
  commit_of = λ name. some (codes "0123");
  zero_hash = codes "0";
}

abbrev accepted : Plan → PushResult
accepted plan = pushed

abbrev second_draft : Target
second_draft = git_target (record {
  pr_key = key_of (codes "v2") (pos 0);
  ref = some (codes "refs/remotes/origin/drafts/catalog/basens/v2");
  commit = codes "0123";
})

-- A tag that names another revision.
abbrev mistagged : Target
mistagged = git_target (record {
  pr_key = key_of (codes "v1") (pos 1);
  ref = some (codes "refs/tags/v1.0.0");
  commit = codes "0123";
})

abbrev draft_plan : Plan
draft_plan = record {
  deletions = delete_ref (codes "0123") (codes "refs/remotes/origin/drafts/catalog/basens/v2") ∷ [];
  package_deletion = none;
}

draft_planned :
    (delete_package_revision_once repo accepted second_draft none).plan ≡ some draft_plan
unfolding delete_package_revision_once reference_name delete_reference has_prefix
    is_draft_branch_name_in_local delete_found push_deletion after_push eqb
    create_final_tag_name_in_local published_path join_elements to_full_pathname published_element
    decimal digits_onto refuse
draft_planned = refl

mistagged_refused :
    (delete_package_revision_once repo accepted mistagged none).outcome ≡ foreign_tag
unfolding delete_package_revision_once reference_name delete_reference has_prefix
    is_draft_branch_name_in_local delete_found push_deletion after_push eqb
    create_final_tag_name_in_local published_path join_elements to_full_pathname published_element
    decimal digits_onto refuse
mistagged_refused = refl

delete-IsSafe_example :
    IsSafe repo accepted second_draft
      (codes "refs/remotes/origin/drafts/catalog/basens/v2")
      draft_plan
unfolding reference_name
delete-IsSafe_example = delete-IsSafe repo accepted second_draft none draft_plan draft_planned
