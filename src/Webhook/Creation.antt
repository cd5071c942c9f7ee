-- ===== src/Webhook/Creation.antt =====
-- Which creations the v1alpha2 webhook allows.
use porch.Common.{
  is_some, false, not, ◌&&◌, ◌≡◌, ◌↔◌, ◌⊎◌, inl, inr, refl, arith, Text, eqb, eqb→eq, eqb_iff,
  is_empty, Bool-cases, List, Memᴰ, Option, none, some, if◌then◌else◌, codes,
}
use porch.Common.Maps.{get}
use porch.Lifecycle.{Lifecycle, draft, proposed}
use porch.PackageRevision.{PackageRevision, PackageSource, SubpackageOperation}
use porch.Webhook.Validator.{
  Reader, Repository, GetResult, found, not_found, get_failed, refuse_if, AdmissionError,
  workspace_exists, same_workspace, check_unique, check_initial, check_annotation,
  check_repository_and_workspace, validate_create, subpackage_at_creation, on_list, check_enabled,
}
use porch.Webhook.Checks.{refuse_any-none, refuse_any_of, on_list-none, then_check-none}

-- Two revisions of one workspace of a package.
pub record SharesWorkspace (a b : PackageRevision) : Type 0 where
  pub repository : a.spec.repository_name ≡ b.spec.repository_name
  pub package_name : a.spec.package_name ≡ b.spec.package_name
  pub workspace : a.spec.workspace_name ≡ b.spec.workspace_name

-- `p` is the object `pr` itself, as far as its name tells.
abbrev pub IsItself : PackageRevision → PackageRevision → Type 0
IsItself pr p = (p.name ≡ pr.name) × (is_empty p.name ≡ false)

same_workspace-false :
    (pr p : PackageRevision)
    → same_workspace pr p ≡ false
    → IsItself pr p ⊎ (¬ SharesWorkspace p pr)
unfolding same_workspace
same_workspace-false pr p h = elim (Bool-cases (eqb p.name pr.name && not (is_empty p.name))) [
  | inl e ↦ inl (ground (arith, eqb_iff p.name pr.name))
  | inr e ↦ inr λ s. ground (
    arith,
    eqb_iff p.name pr.name,
    eqb_iff p.spec.repository_name pr.spec.repository_name,
    eqb_iff p.spec.package_name pr.spec.package_name,
    eqb_iff p.spec.workspace_name pr.spec.workspace_name,
  )
]

same_workspace_of :
    (pr p : PackageRevision)
    → IsItself pr p ⊎ (¬ SharesWorkspace p pr)
    → same_workspace pr p ≡ false
unfolding same_workspace
same_workspace_of pr p (inl i) = ground (arith, eqb_iff p.name pr.name)
same_workspace_of pr p (inr n) =
    elim (Bool-cases (eqb p.spec.repository_name pr.spec.repository_name)) [
      | inr e ↦ ground arith
      | inl e ↦ elim (Bool-cases (eqb p.spec.package_name pr.spec.package_name)) [
        | inr f ↦ ground arith
        | inl f ↦ elim (Bool-cases (eqb p.spec.workspace_name pr.spec.workspace_name)) [
          | inr g ↦ ground arith
          | inl g ↦ absurd (
              n (record {
                repository = eqb→eq _ _ e;
                package_name = eqb→eq _ _ f;
                workspace = eqb→eq _ _ g;
              }))
        ]
      ]
    ]

-- What the check of the repository asks of the lookup.
pub record IsMigrated (r : GetResult) : Type 0 where
  pub repository : Repository
  pub is_found : r ≡ found repository
  pub annotated :
      get (codes "porch.kpt.dev/v1alpha2-migration") repository.annotations ≡ some (codes "true")

check_annotation-none : (r : GetResult) → check_annotation r ≡ none → IsMigrated r
unfolding check_annotation
check_annotation-none (found repo) h = record {
  repository = repo;
  is_found = refl;
  annotated = enabled (get (codes "porch.kpt.dev/v1alpha2-migration") repo.annotations) h;
}
  where
    enabled : (o : Option Text) → check_enabled o ≡ none → o ≡ some (codes "true")
    enabled none q = cc
    enabled (some v) q = ground (arith, eqb_iff v (codes "true"))
check_annotation-none not_found h = cc
check_annotation-none get_failed h = cc

check_annotation_of : (r : GetResult) → IsMigrated r → check_annotation r ≡ none
unfolding check_annotation eqb
check_annotation_of r m = rw m.is_found (rw m.annotated refl)

-- The revisions that the API server lists hold no other of the same workspace.
pub record IsFree (reader : Reader) (pr : PackageRevision) : Type 0 where
  pub listed : List PackageRevision
  pub is_listed : reader.list_revisions pr.namespace ≡ some listed
  pub none_shares : (p : PackageRevision) → Memᴰ p listed → IsItself pr p ⊎ (¬ SharesWorkspace p pr)

pub record IsAllowedCreation (reader : Reader) (pr : PackageRevision) : Type 0 where
  pub no_operation : pr.spec.subpackage_operation ≡ none
  pub initial :
      (pr.spec.source ≡ none) ⊎ (pr.spec.lifecycle ≡ draft) ⊎ (pr.spec.lifecycle ≡ proposed)
  pub migrated : IsMigrated (reader.get_repository pr.namespace pr.spec.repository_name)
  pub free : IsFree reader pr

initial_iff :
    (s : Option PackageSource) (l : Lifecycle)
    → ((if is_some s then check_initial l else none) ≡ none)
      ↔ ((s ≡ none) ⊎ (l ≡ draft) ⊎ (l ≡ proposed))
unfolding check_initial
initial_iff none l = ground arith
initial_iff (some s) l = ground arith

no_operation_iff :
    (o : Option SubpackageOperation) (e : AdmissionError)
    → (refuse_if (is_some o) e ≡ none) ↔ (o ≡ none)
no_operation_iff none e = ground arith
no_operation_iff (some o) e = ground arith

IsFree-none :
    (reader : Reader) (pr : PackageRevision)
    → on_list (check_unique pr) (reader.list_revisions pr.namespace) ≡ none
    → IsFree reader pr
unfolding check_unique
IsFree-none reader pr h =
    let (ps, e, u) = on_list-none (check_unique pr) (reader.list_revisions pr.namespace) h in
    record {
      listed = ps;
      is_listed = e;
      none_shares = λ p m.
          same_workspace-false pr p (refuse_any-none (same_workspace pr) workspace_exists ps u m);
    }

IsFree-of :
    (reader : Reader) (pr : PackageRevision)
    → IsFree reader pr
    → on_list (check_unique pr) (reader.list_revisions pr.namespace) ≡ none
unfolding check_unique
IsFree-of reader pr f = rw f.is_listed (
    refuse_any_of (same_workspace pr) workspace_exists f.listed
      (λ p m. same_workspace_of pr p (f.none_shares p m)))

-- A creation is allowed exactly if it holds no subpackage operation, a revision with a source starts
-- as Draft or Proposed, the repository exists and is migrated to v1alpha2, and the list of the
-- namespace is read and holds no other revision of the same repository, package and workspace.
pub validate_create_iff :
    (reader : Reader) (pr : PackageRevision)
    → (validate_create reader pr ≡ none) ↔ IsAllowedCreation reader pr
unfolding validate_create check_repository_and_workspace
validate_create_iff reader pr = (to, from)
  where
    to : validate_create reader pr ≡ none → IsAllowedCreation reader pr
    to h =
        let (o, r) =
          then_check-none (refuse_if (is_some pr.spec.subpackage_operation) subpackage_at_creation)
            _ h in
        let (i, q) =
          then_check-none (if is_some pr.spec.source then check_initial pr.spec.lifecycle else none)
            _ r in
        let (a, u) =
          then_check-none
            (check_annotation (reader.get_repository pr.namespace pr.spec.repository_name)) _ q in
        record {
          no_operation = (no_operation_iff pr.spec.subpackage_operation subpackage_at_creation).0 o;
          initial = (initial_iff pr.spec.source pr.spec.lifecycle).0 i;
          migrated =
              check_annotation-none (reader.get_repository pr.namespace pr.spec.repository_name) a;
          free = IsFree-none reader pr u;
        }

    from : IsAllowedCreation reader pr → validate_create reader pr ≡ none
    from a =
        rw
          (
            (no_operation_iff pr.spec.subpackage_operation subpackage_at_creation).1 a.no_operation,
            (initial_iff pr.spec.source pr.spec.lifecycle).1 a.initial,
            check_annotation_of (reader.get_repository pr.namespace pr.spec.repository_name)
                a.migrated,
          )
          (IsFree-of reader pr a.free)
