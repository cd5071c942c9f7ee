-- ===== src/Registry/Handler.antt =====
-- updatePackageRevision of pkg/registry/porch/packagecommon.go: the handler of updates and approvals.
-- The engine, the API server and the repositories are parameters, and so is the object that the
-- request asks for, after its conversion to v1alpha1.
use porch.Common.{
  Bool, true, false, not, Text, is_empty, List, [], ◌∷◌, Option, none, some, if◌then◌else◌,
}
use porch.Registry.Strategy.{Revision, FieldError}
use porch.Registry.Update.{
  UpdateStrategy, Outcome, admitted, refused_by_hook, invalid, panicked, validate_request,
}

pub data HandlerError : Type 0 where
  namespace_missing conflict old_lookup_failed old_not_read update_not_built hook_refused
        name_not_read repository_name_missing repository_not_found repository_lookup_failed
        managed_by_v1alpha2 parent_not_found engine_failed result_not_read :
      HandlerError
  invalid_object : List FieldError → HandlerError

-- getRepoPkgRev, and GetPackageRevision on what it found
pub data OldLookup (A : Type 0) : Type 0 where
  old_found : A → OldLookup A
  old_unreadable old_not_found old_failed : OldLookup A

-- client.Get of the Repository; the Boolean is isV1Alpha2Repo
pub data RepositoryLookup : Type 0 where
  repository_found : Bool → RepositoryLookup
  repository_missing lookup_broken : RepositoryLookup

-- CreatePackageRevision or UpdatePackageRevision of the engine, and GetPackageRevision on the result.
pub data EngineResult (A : Type 0) : Type 0 where
  engine_done : A → EngineResult A
  engine_refused result_unreadable : EngineResult A

pub data Call (A : Type 0) : Type 0 where
  create_call : A → Call A
  update_call : A → A → Call A

pub data Response (A : Type 0) : Type 0 where
  created updated : A → Response A
  error : HandlerError → Response A
  panic : Response A

-- The calls of the engine and the response.
pub record Handled (A : Type 0) : Type 0 where
  pub calls : List (Call A)
  pub response : Response A

abbrev pub fail : {A : Type 0} → HandlerError → Handled A
fail e = record { calls = []; response = error e }

pub record Environment (A : Type 0) : Type 0 where
  pub namespaced : Bool
  pub lock_is_free : Bool
  pub old : OldLookup A
  pub updated_object : Option A → Option A
  -- the repository's name that PkgRevK8sName2Key reads, `none` for an error
  pub name_repository : Option Text
  pub spec_repository : A → Text
  pub repository : Text → RepositoryLookup
  -- no parent is named, or it is found
  pub parent_is_found : A → Bool
  pub engine_create : A → EngineResult A
  pub engine_update : A → A → EngineResult A

module _ {Metadata Rest : Type 0} (s : UpdateStrategy Metadata Rest)
    (create_hook : Revision Metadata Rest → Bool)
    (update_hook : Revision Metadata Rest → Revision Metadata Rest → Bool)
    (env : Environment (Revision Metadata Rest)) where
  abbrev pub respond :
      (Revision Metadata Rest → Response (Revision Metadata Rest))
      → EngineResult (Revision Metadata Rest)
      → Response (Revision Metadata Rest)
  respond done (engine_done r) = done r
  respond done engine_refused = error engine_failed
  respond done result_unreadable = error result_not_read

  -- From the lookup of the parent on.
  abbrev pub run_engine :
      Revision Metadata Rest → Option (Revision Metadata Rest) → Handled (Revision Metadata Rest)
  run_engine new none = record {
    calls = create_call new ∷ [];
    response = respond created (env.engine_create new);
  }
  run_engine new (some old) = record {
    calls = update_call old new ∷ [];
    response = respond updated (env.engine_update old new);
  }

  abbrev pub with_repository :
      Revision Metadata Rest
      → Option (Revision Metadata Rest)
      → RepositoryLookup
      → Handled (Revision Metadata Rest)
  with_repository new old repository_missing = fail repository_not_found
  with_repository new old lookup_broken = fail repository_lookup_failed
  with_repository new old (repository_found true) = fail managed_by_v1alpha2
  with_repository new old (repository_found false) =
      if env.parent_is_found new then run_engine new old else fail parent_not_found

  -- The repository of the name, or of the spec for a create.
  abbrev pub with_name :
      Revision Metadata Rest
      → Option (Revision Metadata Rest)
      → Option Text
      → Handled (Revision Metadata Rest)
  with_name new old none = fail name_not_read
  with_name new (some old) (some repo) = with_repository new (some old) (env.repository repo)
  with_name new none (some repo) =
      if is_empty (env.spec_repository new)
      then fail repository_name_missing
      else with_repository new none (env.repository (env.spec_repository new))

  abbrev pub after_validation :
      Option (Revision Metadata Rest)
      → Outcome (Revision Metadata Rest)
      → Handled (Revision Metadata Rest)
  after_validation old panicked = record { calls = []; response = panic }
  after_validation old refused_by_hook = fail hook_refused
  after_validation old (invalid errors) = fail (invalid_object errors)
  after_validation old (admitted new) = with_name new old env.name_repository

  abbrev pub with_update :
      Option (Revision Metadata Rest)
      → Option (Revision Metadata Rest)
      → Handled (Revision Metadata Rest)
  with_update old none = fail update_not_built
  with_update old (some new) =
      after_validation old (validate_request s create_hook update_hook new old)

  abbrev pub with_old : Bool → OldLookup (Revision Metadata Rest) → Handled (Revision Metadata Rest)
  with_old force_allow_create (old_found old) =
      with_update (some old) (env.updated_object (some old))
  with_old force_allow_create old_unreadable = fail old_not_read
  with_old force_allow_create old_failed = fail old_lookup_failed
  with_old true old_not_found = with_update none (env.updated_object none)
  with_old false old_not_found = fail old_lookup_failed

  -- updatePackageRevision; the Boolean is forceAllowCreate
  unfoldable pub update_package_revision : Bool → Handled (Revision Metadata Rest)
  update_package_revision force_allow_create =
      if not env.namespaced
      then fail namespace_missing
      else if not env.lock_is_free
      then fail conflict
      else with_old force_allow_create env.old
