-- ===== src/Git/Deletion.antt =====
-- pkg/externalrepo/git/git.go: one try of DeletePackageRevision; ref.go: getReferenceName.
use porch.Common.{
  ℕ, Bool, ◌||◌, not, Text, List, [], ◌∷◌, ◌++◌, Option, none, some, if◌then◌else◌, eqb, codes,
  has_prefix,
}
use porch.Common.Int.{ℤ, pos, negsuc}
use porch.Names.Paths.{slash}
use porch.DataSize.{decimal}
use porch.Lifecycle.{Lifecycle, draft, proposed}
use porch.Key.{PackageRevisionKey}
use porch.Git.{
  to_full_pathname, tags_prefix_in_local_repo, branch_prefix_in_local_repo, drafts_prefix,
  proposed_prefix, ref_in_local, is_draft_branch_name_in_local, is_proposed_branch_name_in_local,
  create_deletion_proposed_name, create_final_tag_name_in_local,
}
use porch.Git.Lifecycles.{
  GitPackageRevision, Cache, RefUpdate, delete_ref, PushResult, push_failed, without_branch,
}

-- The last case of getReferenceName: a placeholder has revision -1.
abbrev placeholder_name : PackageRevisionKey → ℤ → Text
placeholder_name k (negsuc ℕ.zero) =
    branch_prefix_in_local_repo ++ k.pkg_key.repo_key.placeholder_ws_name
placeholder_name k _ = []

abbrev unpublished_name : PackageRevisionKey → Lifecycle → Text
unpublished_name k draft =
    branch_prefix_in_local_repo
    ++ drafts_prefix
    ++ to_full_pathname k.pkg_key
    ++ (slash ∷ k.workspace_name)
unpublished_name k proposed =
    branch_prefix_in_local_repo
    ++ proposed_prefix
    ++ to_full_pathname k.pkg_key
    ++ (slash ∷ k.workspace_name)
unpublished_name k _ = placeholder_name k k.revision

abbrev name_at : PackageRevisionKey → Lifecycle → ℤ → Text
name_at k lifecycle (pos (ℕ.suc n)) =
    tags_prefix_in_local_repo ++ to_full_pathname k.pkg_key ++ codes "/v" ++ decimal (ℕ.suc n) []
name_at k lifecycle _ = unpublished_name k lifecycle

-- getReferenceName
unfoldable pub get_reference_name : PackageRevisionKey → Lifecycle → Text
get_reference_name k lifecycle = name_at k lifecycle k.revision

-- pr2Delete: a gitPackageRevision, or another kind of revision with its lifecycle
pub data Target : Type 0 where
  git_target : GitPackageRevision → Target
  other_target : PackageRevisionKey → Lifecycle → Target

abbrev pub target_key : Target → PackageRevisionKey
target_key (git_target pr) = pr.pr_key
target_key (other_target k lifecycle) = k

-- The reference name that DeletePackageRevision starts from
unfoldable pub reference_name : Target → Text
reference_name (git_target pr) = at pr.ref
  where
    at : Option Text → Text
    at none = []
    at (some name) = name
reference_name (other_target k lifecycle) = get_reference_name k lifecycle

-- What is pushed: the deletions of references, and the branch that a commit takes the package from.
pub record Plan : Type 0 where
  pub deletions : List RefUpdate
  pub package_deletion : Option Text

pub data DeleteOutcome : Type 0 where
  deleted no_ref foreign_tag unresolved_ref unknown_ref failed_push : DeleteOutcome

-- The end of a try: how it ends, what it asked to push, and the cache.
pub record Attempt : Type 0 where
  pub outcome : DeleteOutcome
  pub plan : Option Plan
  pub cache : Cache

-- The calls of go-git: ReferenceName.IsTag, the commit of a reference, and ZeroHash.
pub record Repo : Type 0 where
  pub is_tag : Text → Bool
  pub commit_of : Text → Option Text
  pub zero_hash : Text

module _ (repo : Repo) (push : Plan → PushResult) (target : Target) where
  abbrev pub proposal_branch : Text
  proposal_branch = create_deletion_proposed_name (target_key target)

  abbrev pub delete_proposal : RefUpdate
  delete_proposal = delete_ref repo.zero_hash (ref_in_local proposal_branch)

  -- The result of the push, and the deletion from the cache behind it
  unfoldable pub after_push : Cache → Plan → PushResult → Attempt
  after_push cache plan push_failed = record {
    outcome = failed_push;
    plan = some plan;
    cache = cache;
  }
  after_push cache plan _ = record {
    outcome = deleted;
    plan = some plan;
    cache = without_branch proposal_branch cache;
  }

  unfoldable pub push_deletion : Cache → Plan → Attempt
  push_deletion cache plan = after_push cache plan (push plan)

  unfoldable pub refuse : Cache → DeleteOutcome → Attempt
  refuse cache outcome = record { outcome = outcome; plan = none; cache = cache }

  -- A reference, not a symbolic one, is found and deleted, together with those of `more`.
  unfoldable pub delete_found : Cache → Text → List RefUpdate → Option Text → Attempt
  delete_found cache name more none = refuse cache unresolved_ref
  delete_found cache name more (some commit) =
      push_deletion cache
        (record { deletions = delete_ref commit name ∷ more; package_deletion = none })

  -- The switch on the name of the reference
  unfoldable pub delete_reference : Cache → Text → Attempt
  delete_reference cache name =
      if repo.is_tag name
      then (if not (eqb name (create_final_tag_name_in_local (target_key target)))
          then refuse cache foreign_tag
          else delete_found cache name (delete_proposal ∷ []) (repo.commit_of name))
      else if is_draft_branch_name_in_local name || is_proposed_branch_name_in_local name
      then delete_found cache name [] (repo.commit_of name)
      else if has_prefix branch_prefix_in_local_repo name
      then push_deletion cache
          (record { deletions = delete_proposal ∷ []; package_deletion = some name })
      else refuse cache unknown_ref

  abbrev pub delete_named : Cache → Text → Attempt
  delete_named cache [] = refuse cache no_ref
  delete_named cache (x ∷ name) = delete_reference cache (x ∷ name)

  -- DeletePackageRevision up to the end of its first try
  unfoldable pub delete_package_revision_once : Cache → Attempt
  delete_package_revision_once cache = delete_named cache (reference_name target)
