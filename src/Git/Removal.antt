-- ===== src/Git/Removal.antt =====
-- What DeletePackageRevision asks git to remove (pkg/externalrepo/git/git.go).
use porch.Common.{
  true, false, ◌||◌, ◌≡◌, refl, sym, ◌∙◌, subst, Text, List, [], ◌∷◌, Option, none, some,
  some-injective, eqb, eqb→eq, has_prefix, Bool-cases, inl, inr,
}
use porch.Git.{
  branch_prefix_in_local_repo, is_draft_branch_name_in_local, is_proposed_branch_name_in_local,
  create_final_tag_name_in_local,
}
use porch.Git.Lifecycles.{Cache, RefUpdate, delete_ref, PushResult, push_failed}
use porch.Git.Deletion.{
  Target, target_key, reference_name, Plan, Repo, delete_proposal, after_push, push_deletion,
  refuse, delete_found, delete_reference, delete_named, delete_package_revision_once,
}

module _ (repo : Repo) (push : Plan → PushResult) (target : Target) where
  -- What may be pushed for the reference name of the revision.
  pub data IsSafe : Text → Plan → Type 0 where
    tag_is_deleted :
        (name commit : Text)
        → name ≡ create_final_tag_name_in_local (target_key target)
        → repo.is_tag name ≡ true
        → repo.commit_of name ≡ some commit
        → IsSafe name (record {
          deletions = delete_ref commit name ∷ delete_proposal repo push target ∷ [];
          package_deletion = none;
        })
    draft_is_deleted :
        (name commit : Text)
        → repo.is_tag name ≡ false
        → (is_draft_branch_name_in_local name || is_proposed_branch_name_in_local name) ≡ true
        → repo.commit_of name ≡ some commit
        → IsSafe name (record { deletions = delete_ref commit name ∷ []; package_deletion = none })
    package_is_deleted :
        (name : Text)
        → repo.is_tag name ≡ false
        → (is_draft_branch_name_in_local name || is_proposed_branch_name_in_local name) ≡ false
        → has_prefix branch_prefix_in_local_repo name ≡ true
        → IsSafe name (record {
          deletions = delete_proposal repo push target ∷ [];
          package_deletion = some name;
        })

  after_push-plan :
      (cache : Cache) (plan : Plan) (r : PushResult)
      → (after_push repo push target cache plan r).plan ≡ some plan
  unfolding after_push
  after_push-plan cache plan push_failed = refl
  after_push-plan cache plan _ = refl

  push_deletion-IsSafe :
      (cache : Cache) (name : Text) (asked plan : Plan)
      → IsSafe name asked
      → (push_deletion repo push target cache asked).plan ≡ some plan
      → IsSafe name plan
  unfolding push_deletion
  push_deletion-IsSafe cache name asked plan s h =
      subst (IsSafe name)
        (some-injective asked plan (sym (after_push-plan cache asked (push asked)) ∙ h)) s

  found-IsSafe :
      (cache : Cache) (name : Text) (more : List RefUpdate) (plan : Plan) (c : Option Text)
      → ((commit : Text)
          → c ≡ some commit
          → IsSafe name
              (record { deletions = delete_ref commit name ∷ more; package_deletion = none }))
      → (delete_found repo push target cache name more c).plan ≡ some plan
      → IsSafe name plan
  unfolding delete_found refuse
  found-IsSafe cache name more plan none s h = cc
  found-IsSafe cache name more plan (some commit) s h =
      push_deletion-IsSafe cache name
        (record { deletions = delete_ref commit name ∷ more; package_deletion = none }) plan
        (s commit refl) h

  tag-IsSafe :
      (cache : Cache) (name : Text) (plan : Plan)
      → repo.is_tag name ≡ true
      → (delete_reference repo push target cache name).plan ≡ some plan
      → IsSafe name plan
  unfolding delete_reference refuse
  tag-IsSafe cache name plan t h =
      elim (Bool-cases (eqb name (create_final_tag_name_in_local (target_key target)))) [
        | inl e ↦
            found-IsSafe cache name (delete_proposal repo push target ∷ []) plan
              (repo.commit_of name)
              (λ c f.
                tag_is_deleted name c
                  (eqb→eq name (create_final_tag_name_in_local (target_key target)) e) t f)
              (simp (t, e) at h)
        | inr e ↦ cc (simp (t, e) at h)
      ]

  branch-IsSafe :
      (cache : Cache) (name : Text) (plan : Plan)
      → repo.is_tag name ≡ false
      → (delete_reference repo push target cache name).plan ≡ some plan
      → IsSafe name plan
  unfolding delete_reference refuse
  branch-IsSafe cache name plan t h =
      elim (Bool-cases
        (is_draft_branch_name_in_local name || is_proposed_branch_name_in_local name)) [
          | inl d ↦
              found-IsSafe cache name [] plan (repo.commit_of name)
                (λ c f. draft_is_deleted name c t d f) (simp (t, d) at h)
          | inr d ↦ elim (Bool-cases (has_prefix branch_prefix_in_local_repo name)) [
            | inl p ↦
                push_deletion-IsSafe cache name
                  (record {
                    deletions = delete_proposal repo push target ∷ [];
                    package_deletion = some name;
                  })
                  plan (package_is_deleted name t d p) (simp (t, d, p) at h)
            | inr p ↦ cc (simp (t, d, p) at h)
          ]
        ]

  named-IsSafe :
      (cache : Cache) (plan : Plan) (name : Text)
      → (delete_named repo push target cache name).plan ≡ some plan
      → IsSafe name plan
  unfolding refuse
  named-IsSafe cache plan [] h = cc
  named-IsSafe cache plan (x ∷ n) h = elim (Bool-cases (repo.is_tag (x ∷ n))) [
    | inl t ↦ tag-IsSafe cache (x ∷ n) plan t h
    | inr t ↦ branch-IsSafe cache (x ∷ n) plan t h
  ]

  -- Whatever DeletePackageRevision pushes is one of three things: the deletion of the revision's own
  -- reference, a tag with exactly the name of its final tag, and of its deletionProposed branch; the
  -- deletion of its own reference alone, a draft or proposed branch; or, for any other branch, a
  -- commit on it that takes the package out and the deletion of the deletionProposed branch. No
  -- other branch and no other tag is deleted.
  pub delete-IsSafe :
      (cache : Cache) (plan : Plan)
      → (delete_package_revision_once repo push target cache).plan ≡ some plan
      → IsSafe (reference_name target) plan
  unfolding delete_package_revision_once
  delete-IsSafe cache plan h = named-IsSafe cache plan (reference_name target) h
