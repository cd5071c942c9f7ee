-- ===== src/Registry/Admission.antt =====
-- What the engine is asked to do by updatePackageRevision (pkg/registry/porch/packagecommon.go).
use porch.Common.{
  Bool, true, false, ◌≡◌, refl, sym, subst, Text, is_empty, [], ◌∷◌, Memᴰ, Option, none, some,
  Bool-cases, inl, inr,
}
use porch.Registry.Strategy.{Revision}
use porch.Registry.Update.{
  UpdateStrategy, Outcome, admitted, refused_by_hook, invalid, panicked, validate_request,
}
use porch.Registry.Handler.{
  OldLookup, old_found, old_unreadable, old_not_found, old_failed, RepositoryLookup,
  repository_found, repository_missing, lookup_broken, Call, create_call, update_call, Environment,
  run_engine, with_repository, with_name, after_validation, with_update, with_old,
  update_package_revision,
}

module _ {Metadata Rest : Type 0} (s : UpdateStrategy Metadata Rest)
    (create_hook : Revision Metadata Rest → Bool)
    (update_hook : Revision Metadata Rest → Revision Metadata Rest → Bool)
    (env : Environment (Revision Metadata Rest)) where
  -- The reasons for a call of the engine.
  pub data IsAdmitted : Call (Revision Metadata Rest) → Type 0 where
    update_is_admitted :
        (old asked new : Revision Metadata Rest)
        → env.old ≡ old_found old
        → env.updated_object (some old) ≡ some asked
        → validate_request s create_hook update_hook asked (some old) ≡ admitted new
        → IsAdmitted (update_call old new)
    create_is_admitted :
        (asked new : Revision Metadata Rest)
        → env.old ≡ old_not_found
        → env.updated_object none ≡ some asked
        → validate_request s create_hook update_hook asked none ≡ admitted new
        → is_empty (env.spec_repository new) ≡ false
        → IsAdmitted (create_call new)

  -- The call that is made for a new object, and what it needs of the object.
  abbrev asked_call :
      Revision Metadata Rest → Option (Revision Metadata Rest) → Call (Revision Metadata Rest)
  asked_call new none = create_call new
  asked_call new (some old) = update_call old new

  abbrev IsNamed : Revision Metadata Rest → Option (Revision Metadata Rest) → Type 0
  IsNamed new none = is_empty (env.spec_repository new) ≡ false
  IsNamed new (some old) = Unit

  module _ (c : Call (Revision Metadata Rest)) where
    abbrev IsAsked : Revision Metadata Rest → Option (Revision Metadata Rest) → Type 0
    IsAsked new old = (c ≡ asked_call new old) × IsNamed new old

    only : (x : Call (Revision Metadata Rest)) → Memᴰ c (x ∷ []) → c ≡ x
    only x (Memᴰ.head e) = e
    only x (Memᴰ.tail m) = elim m [ ]

    engine-asked :
        (new : Revision Metadata Rest) (old : Option (Revision Metadata Rest))
        → Memᴰ c (run_engine s create_hook update_hook env new old).calls
        → c ≡ asked_call new old
    engine-asked new none m = only (create_call new) m
    engine-asked new (some old) m = only (update_call old new) m

    repository-asked :
        (new : Revision Metadata Rest) (old : Option (Revision Metadata Rest))
        (l : RepositoryLookup)
        → Memᴰ c (with_repository s create_hook update_hook env new old l).calls
        → c ≡ asked_call new old
    repository-asked new old repository_missing m = elim m [ ]
    repository-asked new old lookup_broken m = elim m [ ]
    repository-asked new old (repository_found true) m = elim m [ ]
    repository-asked new old (repository_found false) m =
        elim (Bool-cases (env.parent_is_found new)) [
          | inl e ↦ engine-asked new old (simp e at m)
          | inr e ↦ absurd (none_in (simp e at m))
        ]
      where
        none_in : ¬ Memᴰ c []
        none_in n = elim n [ ]

    name-IsAsked :
        (new : Revision Metadata Rest) (old : Option (Revision Metadata Rest)) (name : Option Text)
        → Memᴰ c (with_name s create_hook update_hook env new old name).calls
        → IsAsked new old
    name-IsAsked new old none m = elim m [ ]
    name-IsAsked new (some old) (some repo) m =
        (repository-asked new (some old) (env.repository repo) m, tt)
    name-IsAsked new none (some repo) m = elim (Bool-cases (is_empty (env.spec_repository new))) [
      | inl e ↦ absurd (none_in (simp e at m))
      | inr e ↦
          (repository-asked new none (env.repository (env.spec_repository new)) (simp e at m), e)
    ]
      where
        none_in : ¬ Memᴰ c []
        none_in n = elim n [ ]

    validation-IsAsked :
        (old : Option (Revision Metadata Rest)) (o : Outcome (Revision Metadata Rest))
        → Memᴰ c (after_validation s create_hook update_hook env old o).calls
        → (new : Revision Metadata Rest) × (o ≡ admitted new) × IsAsked new old
    validation-IsAsked old panicked m = elim m [ ]
    validation-IsAsked old refused_by_hook m = elim m [ ]
    validation-IsAsked old (invalid es) m = elim m [ ]
    validation-IsAsked old (admitted new) m =
        (new, refl, name-IsAsked new old env.name_repository m)

    update-IsAsked :
        (old u : Option (Revision Metadata Rest))
        → Memᴰ c (with_update s create_hook update_hook env old u).calls
        → (asked new : Revision Metadata Rest) × (u ≡ some asked)
          × (validate_request s create_hook update_hook asked old ≡ admitted new)
          × IsAsked new old
    update-IsAsked old none m = elim m [ ]
    update-IsAsked old (some asked) m =
        let (new, e, q) =
          validation-IsAsked old (validate_request s create_hook update_hook asked old) m in
        (asked, new, refl, e, q)

    old-IsAdmitted :
        (force : Bool) (l : OldLookup (Revision Metadata Rest))
        → env.old ≡ l
        → Memᴰ c (with_old s create_hook update_hook env force l).calls
        → IsAdmitted c
    old-IsAdmitted force (old_found old) i m =
        let (asked, new, u, v, q) = update-IsAsked (some old) (env.updated_object (some old)) m in
        subst IsAdmitted (sym q.0) (update_is_admitted old asked new i u v)
    old-IsAdmitted force old_unreadable i m = elim m [ ]
    old-IsAdmitted force old_failed i m = elim m [ ]
    old-IsAdmitted false old_not_found i m = elim m [ ]
    old-IsAdmitted true old_not_found i m =
        let (asked, new, u, v, q) = update-IsAsked none (env.updated_object none) m in
        subst IsAdmitted (sym q.0) (create_is_admitted asked new i u v q.1)

    -- A call of the engine is made only with the lock of the package revision, for the revision that
    -- was found and with the object that the strategy and the hooks have admitted in its place; a
    -- revision is created only where none was found and the new one names a repository.
    pub engine-IsAdmitted :
        (force : Bool)
        → Memᴰ c (update_package_revision s create_hook update_hook env force).calls
        → (env.namespaced ≡ true) × (env.lock_is_free ≡ true) × IsAdmitted c
    unfolding update_package_revision
    engine-IsAdmitted force m = elim (Bool-cases env.namespaced) [
      | inr n ↦ absurd (none_in (simp n at m))
      | inl n ↦ elim (Bool-cases env.lock_is_free) [
        | inr l ↦ absurd (none_in (simp (n, l) at m))
        | inl l ↦ (n, l, old-IsAdmitted force env.old refl (simp (n, l) at m))
      ]
    ]
      where
        none_in : ¬ Memᴰ c []
        none_in k = elim k [ ]
