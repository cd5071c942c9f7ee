-- ===== src/Controller/Owned.antt =====
-- What ensureFinalizerAndOwner (ownership.go) leaves.
use porch.Common.{
  Bool, true, false, not, ◌≡◌, refl, ap, subst, Text, eqb, eqb_refl, is_empty, List, [], ◌∷◌,
  keep_if, Bool-cases, inl, inr,
}
use porch.PackageRevision.{PackageRevision, OwnerReference}
use porch.Controller.Ownership.{
  names_repository, is_complete, has_owner_reference, RepositoryObject, desired_reference,
  replace_reference, Lookup, found, set_owner_reference, Finalizers, ensured_references,
  with_finalizer_and_owner,
}

-- A reference to something else than the repository.
abbrev pub is_other : Text → OwnerReference → Bool
is_other repo r = not (names_repository repo r)

desired_complete :
    (repo : RepositoryObject)
    → is_empty repo.uid ≡ false
    → is_complete repo.name (desired_reference repo) ≡ true
unfolding eqb
desired_complete repo u = rw (eqb_refl repo.name, u) refl

replace-has :
    (repo : RepositoryObject) (rs : List OwnerReference)
    → is_empty repo.uid ≡ false
    → has_owner_reference (replace_reference repo rs) repo.name ≡ true
unfolding has_owner_reference replace_reference
replace-has repo [] u = rw (desired_complete repo u) refl
replace-has repo (r ∷ rs) u = elim (Bool-cases (names_repository repo.name r)) [
  | inl e ↦ rw (e, desired_complete repo u) refl
  | inr e ↦ simp e (replace-has repo rs u)
]

replace-others :
    (repo : RepositoryObject) (rs : List OwnerReference)
    → keep_if (is_other repo.name) (replace_reference repo rs) ≡ keep_if (is_other repo.name) rs
unfolding replace_reference eqb
replace-others repo [] = rw (eqb_refl repo.name) refl
replace-others repo (r ∷ rs) = elim (Bool-cases (names_repository repo.name r)) [
  | inl e ↦ simp (e, eqb_refl repo.name) refl
  | inr e ↦ simp e (ap (λ l. r ∷ l) (replace-others repo rs))
]

ensured-has :
    (repo : RepositoryObject) (pr : PackageRevision)
    → repo.name ≡ pr.spec.repository_name
    → is_empty repo.uid ≡ false
    → has_owner_reference (ensured_references (found repo) pr).0 pr.spec.repository_name ≡ true
unfolding ensured_references set_owner_reference
ensured-has repo pr n u =
    elim (Bool-cases (has_owner_reference pr.owner_references pr.spec.repository_name)) [
      | inl e ↦ simp e refl
      | inr e ↦ simp e (
          subst (λ t. has_owner_reference (replace_reference repo pr.owner_references) t ≡ true) n
            (replace-has repo pr.owner_references u))
    ]

ensured-others :
    (repo : RepositoryObject) (pr : PackageRevision)
    → keep_if (is_other repo.name) (ensured_references (found repo) pr).0
      ≡ keep_if (is_other repo.name) pr.owner_references
unfolding ensured_references set_owner_reference
ensured-others repo pr =
    elim (Bool-cases (has_owner_reference pr.owner_references pr.spec.repository_name)) [
      | inl e ↦ simp e refl
      | inr e ↦ simp e (replace-others repo pr.owner_references)
    ]

ensured_again :
    (later : Lookup) (pr : PackageRevision)
    → has_owner_reference pr.owner_references pr.spec.repository_name ≡ true
    → (ensured_references later pr).1 ≡ false
unfolding ensured_references
ensured_again later pr h = simp h refl

-- What one call leaves in the object.
pub record IsOwned (f : Finalizers) (repo : RepositoryObject) (before after : PackageRevision)
    : Type 0 where
  pub owned : has_owner_reference after.owner_references after.spec.repository_name ≡ true
  pub others_kept :
      keep_if (is_other repo.name) after.owner_references
      ≡ keep_if (is_other repo.name) before.owner_references
  pub settled :
      (later : Lookup)
      → (f.add after.finalizers).1 ≡ false
      → (with_finalizer_and_owner f later after).1 ≡ false

-- If the repository of the revision is found and has a UID, the object that is patched has a complete
-- owner reference to it and all its references to other objects, in their order. A later call patches
-- nothing, whatever the lookup returns, if the finalizer is not added again.
pub ensure-IsOwned :
    (f : Finalizers) (repo : RepositoryObject) (pr : PackageRevision)
    → repo.name ≡ pr.spec.repository_name
    → is_empty repo.uid ≡ false
    → IsOwned f repo pr (with_finalizer_and_owner f (found repo) pr).0
unfolding with_finalizer_and_owner
ensure-IsOwned f repo pr n u = record {
  owned = ensured-has repo pr n u;
  others_kept = ensured-others repo pr;
  settled = λ later a.
      rw
        (
          a,
          ensured_again later (with_finalizer_and_owner f (found repo) pr).0
              (ensured-has repo pr n u),
        )
        refl;
}
