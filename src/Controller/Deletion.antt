-- ===== src/Controller/Deletion.antt =====
-- When handleDeletion (ownership.go) lets a package revision go.
use porch.Common.{
  Bool, true, false, ◌&&◌, ◌≡◌, ◌≢◌, ◌↔◌, inl, inr, refl, arith, [], if◌then◌else◌, any, Bool-cases,
}
use porch.Lifecycle.{published, lifecycle_eq, lifecycle_eq_iff}
use porch.PackageRevision.{PackageRevision}
use porch.Controller.Ownership.{
  Lookup, found, not_found, lookup_failed, owner_repo_gone, Finalizers, DeleteResult, deleted,
  package_not_found, delete_failed, delete_from_git, Replies, Effect, delete_package,
  patch_finalizer, Deletion, behind, patch_away, remove_finalizer, delete_published,
  handle_deletion, failed,
}

abbrev pub removes_finalizer : Effect → Bool
removes_finalizer patch_finalizer = true
removes_finalizer _ = false

-- The package is gone from git, and its siblings have their labels; for a published one the
-- repository is gone.
pub data MayGo (r : Replies) (pr : PackageRevision) : Type 0 where
  with_repository : pr.spec.lifecycle ≡ published → r.owner ≡ not_found → MayGo r pr
  alone :
      pr.spec.lifecycle ≢ published
      → r.package_deleted ≢ delete_failed
      → r.labels_updated ≡ true
      → MayGo r pr

module _ (f : Finalizers) (r : Replies) (pr : PackageRevision) where
  patched_away : (b : Bool) → any removes_finalizer (patch_away f r pr b).effects ≡ b
  patched_away true = refl
  patched_away false = refl

  labelled_case :
      any removes_finalizer (remove_finalizer f r pr true).effects
      ≡ (r.labels_updated && (f.remove pr.finalizers).1)
  unfolding remove_finalizer
  labelled_case = elim (Bool-cases r.labels_updated) [
    | inl e ↦ simp e (patched_away (f.remove pr.finalizers).1)
    | inr e ↦ simp e refl
  ]

  -- What follows if the revision is not published.
  abbrev delete_other : DeleteResult → Deletion
  delete_other d = behind delete_package (
      if delete_from_git d
      then remove_finalizer f r pr true
      else record { effects = []; ending = failed })

  other_case :
      (d : DeleteResult)
      → (any removes_finalizer (delete_other d).effects ≡ true)
        ↔ ((d ≢ delete_failed) × (r.labels_updated ≡ true) × ((f.remove pr.finalizers).1 ≡ true))
  unfolding delete_from_git
  other_case deleted = ground (arith, labelled_case)
  other_case package_not_found = ground (arith, labelled_case)
  other_case delete_failed = ground arith

  published_case :
      (l : Lookup)
      → any removes_finalizer (delete_published f r pr (owner_repo_gone l)).effects ≡ true
        ↔ (l ≡ not_found) × ((f.remove pr.finalizers).1 ≡ true)
  unfolding owner_repo_gone remove_finalizer
  published_case (found o) = ground arith
  published_case not_found = ground (arith, patched_away (f.remove pr.finalizers).1)
  published_case lookup_failed = ground arith

-- The patch that takes the finalizer away is sent, whether or not the API server then refuses it,
-- exactly if the object has the finalizer and either the revision is published and its repository is
-- not found, or it is not published, its package is deleted from git or is not there, and the labels
-- of its siblings are up to date.
pub finalizer-MayGo :
    (f : Finalizers) (r : Replies) (pr : PackageRevision)
    → (any removes_finalizer (handle_deletion f r pr).effects ≡ true)
      ↔ (((f.remove pr.finalizers).1 ≡ true) × MayGo r pr)
unfolding handle_deletion
finalizer-MayGo f r pr = elim (Bool-cases (lifecycle_eq pr.spec.lifecycle published)) [
  | inl e ↦
      let p = (lifecycle_eq_iff pr.spec.lifecycle published).0 e in
      simp e (
        λ h. let (o, a) = (published_case f r pr r.owner).0 h in (a, MayGo.with_repository p o),
        λ m. (published_case f r pr r.owner).1 (owner_gone p m.1, m.0),
      )
  | inr e ↦ simp e (
    λ h.
        let (d, l, a) = (other_case f r pr r.package_deleted).0 h in
        (a, MayGo.alone (not_published e) d l),
    λ m.
        (other_case f r pr r.package_deleted).1
          ((deleted_alone e m.1).0, (deleted_alone e m.1).1, m.0),
  )
]
  where
    not_published : lifecycle_eq pr.spec.lifecycle published ≡ false → pr.spec.lifecycle ≢ published
    not_published e p = cc ((lifecycle_eq_iff pr.spec.lifecycle published).1 p, e)

    owner_gone : pr.spec.lifecycle ≡ published → MayGo r pr → r.owner ≡ not_found
    owner_gone p (MayGo.with_repository q o) = o
    owner_gone p (MayGo.alone n d l) = absurd (n p)

    deleted_alone :
        lifecycle_eq pr.spec.lifecycle published ≡ false
        → MayGo r pr
        → (r.package_deleted ≢ delete_failed) × (r.labels_updated ≡ true)
    deleted_alone e (MayGo.with_repository q o) = absurd (not_published e q)
    deleted_alone e (MayGo.alone n d l) = (d, l)
