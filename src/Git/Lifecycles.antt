-- ===== src/Git/Lifecycles.antt =====
-- pkg/externalrepo/git/git.go: the lifecycle of a package revision, read from its reference and from
-- the cached set of deletionProposed branches, and the moves between the published lifecycles.
use porch.Common.{
  not, Text, List, [], ◌∷◌, ◌++◌, Option, none, some, if◌then◌else◌, eqb, any, keep_if,
}
use porch.Lifecycle.{
  Lifecycle, draft, proposed, published, deletion_proposed, lifecycle_eq, is_published,
}
use porch.Key.{PackageRevisionKey}
use porch.Git.{
  deletion_proposed_prefix, get_deletion_proposed_branch_name_in_local, ref_in_local,
  is_draft_branch_name_in_local, is_proposed_branch_name_in_local, create_deletion_proposed_name,
}

-- The fields of gitPackageRevision that are read here; `ref` is the name of its reference.
pub record GitPackageRevision : Type 0 where
  pub pr_key : PackageRevisionKey
  pub ref : Option Text
  pub commit : Text

-- deletionProposedCache: the keys of the map, or `none` for the nil map
abbrev pub Cache : Type 0
Cache = Option (List Text)

-- The loop of updateDeletionProposedCache over the names of the references
abbrev collect : Option Text → List Text → List Text
collect none branches = branches
collect (some branch) branches = (deletion_proposed_prefix ++ branch) ∷ branches

unfoldable pub deletion_proposed_branches : List Text → List Text
deletion_proposed_branches [] = []
deletion_proposed_branches (n ∷ ns) =
    collect (get_deletion_proposed_branch_name_in_local n) (deletion_proposed_branches ns)

-- updateDeletionProposedCache, given the names of the references; `none` where they cannot be
-- listed, which leaves the cache as it is
unfoldable pub update_deletion_proposed_cache : Option (List Text) → Cache → Cache
update_deletion_proposed_cache none cache = cache
update_deletion_proposed_cache (some names) cache = some (deletion_proposed_branches names)

-- The first step of checkPublishedLifecycle: a nil cache is filled.
unfoldable pub filled : Option (List Text) → Cache → Cache
filled refs none = update_deletion_proposed_cache refs none
filled refs (some branches) = some branches

-- The rest of it: published if the cache could not be filled
unfoldable pub cached_lifecycle : Cache → Text → Lifecycle
cached_lifecycle none branch = published
cached_lifecycle (some branches) branch =
    if any (eqb branch) branches then deletion_proposed else published

-- checkPublishedLifecycle: the lifecycle, and the cache afterwards
unfoldable pub check_published_lifecycle :
    Option (List Text) → Cache → GitPackageRevision → Lifecycle × Cache
check_published_lifecycle refs cache pr =
    let cache' = filled refs cache in
    (cached_lifecycle cache' (create_deletion_proposed_name pr.pr_key), cache')

-- The switch of getLifecycle on the reference, given what checkPublishedLifecycle returns
unfoldable pub lifecycle_at : Lifecycle × Cache → Cache → Option Text → Lifecycle × Cache
lifecycle_at checked cache none = checked
lifecycle_at checked cache (some name) =
    if is_draft_branch_name_in_local name
    then (draft, cache)
    else if is_proposed_branch_name_in_local name
    then (proposed, cache)
    else checked

-- getLifecycle
unfoldable pub get_lifecycle : Option (List Text) → Cache → GitPackageRevision → Lifecycle × Cache
get_lifecycle refs cache pr = lifecycle_at (check_published_lifecycle refs cache pr) cache pr.ref

-- What is pushed: a commit to a reference, or the deletion of a reference at a commit.
pub data RefUpdate : Type 0 where
  push_ref delete_ref : (commit name : Text) → RefUpdate

-- The result of pushPackageRevisions
pub data PushResult : Type 0 where
  pushed already_up_to_date push_failed : PushResult

-- How UpdateLifecycle ends. An assignment to an entry of the nil map panics.
pub data Outcome : Type 0 where
  updated refused_draft refused_lifecycle refused_push panicked : Outcome

unfoldable pub push_outcome : PushResult → Outcome
push_outcome pushed = updated
push_outcome already_up_to_date = updated
push_outcome push_failed = refused_push

abbrev pub deletion_branch : GitPackageRevision → Text
deletion_branch pr = create_deletion_proposed_name pr.pr_key

-- delete(m, branch), which the nil map allows
abbrev pub without_branch : Text → Cache → Cache
without_branch branch none = none
without_branch branch (some branches) = some (keep_if (λ b. not (eqb branch b)) branches)

module _ (push : RefUpdate → PushResult) (pr : GitPackageRevision) where
  -- deletionProposedCache[deletionProposedBranch] = true, and the push
  unfoldable pub propose_deletion : Cache → Outcome × Cache
  propose_deletion none = (panicked, none)
  propose_deletion (some branches) = (
    push_outcome (push (push_ref pr.commit (ref_in_local (deletion_branch pr)))),
    some (deletion_branch pr ∷ branches),
  )

  -- delete(deletionProposedCache, deletionProposedBranch), and the push
  unfoldable pub withdraw_deletion : Cache → Outcome × Cache
  withdraw_deletion cache = (
    push_outcome (push (delete_ref pr.commit (ref_in_local (deletion_branch pr)))),
    without_branch (deletion_branch pr) cache,
  )

  -- What is done from the lifecycle and the cache that getLifecycle gives
  unfoldable pub move_lifecycle : Lifecycle × Cache → Lifecycle → Outcome × Cache
  move_lifecycle (old, cache) new =
      if not (is_published old)
      then (refused_draft, cache)
      else if lifecycle_eq old published
      then (if not (lifecycle_eq new deletion_proposed)
          then (refused_lifecycle, cache)
          else propose_deletion cache)
      else if not (lifecycle_eq new published)
      then (refused_lifecycle, cache)
      else withdraw_deletion cache

  -- gitRepository.UpdateLifecycle, with no other call between its two locks
  unfoldable pub update_lifecycle : Option (List Text) → Cache → Lifecycle → Outcome × Cache
  update_lifecycle refs cache = move_lifecycle (get_lifecycle refs cache pr)
