-- ===== src/Webhook/Deletion.antt =====
-- Which deletions the v1alpha2 webhook allows.
use porch.Common.{
  Bool, true, false, not, ◌&&◌, ◌||◌, ◌≡◌, ◌≢◌, ◌↔◌, ◌⊎◌, inl, inr, refl, arith, Text, eqb, eqb→eq,
  eqb_refl, eqb_iff, Bool-cases, List, Memᴰ, Option, none, some, if◌then◌else◌,
}
use porch.Lifecycle.{Lifecycle, published, lifecycle_eq, lifecycle_eq_iff}
use porch.PackageRevision.{PackageRevision, PackageSource, UpstreamPackage, PackageUpgradeSpec}
use porch.Webhook.Validator.{
  Reader, Repository, GetResult, found, not_found, get_failed, refuse_if, Verdict, depends_on,
  Verdict, depends_on, referenced, published_package, names_target, clone_names, upgrade_names,
  check_references, is_referenced_by, is_owner_repo_gone, validate_delete, on_list,
}
use porch.Webhook.Checks.{refuse_any-none, refuse_any_of, on_list-none, then_check-none}

abbrev pub ClonesFrom : Text → PackageSource → Type 0
ClonesFrom target s =
    (c : UpstreamPackage) × (s.clone_from ≡ some c) × (c.upstream_ref ≡ some target)

abbrev pub UpgradesTo : Text → PackageSource → Type 0
UpgradesTo target s = (u : PackageUpgradeSpec) × (s.upgrade ≡ some u) × (u.new_upstream ≡ target)

-- `p` is another object that was cloned from `pr`, or upgraded to it.
pub record DependsOn (pr p : PackageRevision) : Type 0 where
  pub other_object : p.uid ≢ pr.uid
  pub source : PackageSource
  pub has_source : p.spec.source ≡ some source
  pub refers : ClonesFrom pr.name source ⊎ UpgradesTo pr.name source

names_target-some : (t : Text) (o : Option Text) → names_target t o ≡ true → o ≡ some t
names_target-some t none h = cc
names_target-some t (some s) h = ground (arith, eqb_iff s t)

clone_names-true :
    (t : Text) (s : PackageSource) → clone_names t s.clone_from ≡ true → ClonesFrom t s
clone_names-true t s h = go s.clone_from refl h
  where
    go : (o : Option UpstreamPackage) → s.clone_from ≡ o → clone_names t o ≡ true → ClonesFrom t s
    go none e q = cc
    go (some c) e q = (c, e, names_target-some t c.upstream_ref q)

upgrade_names-true :
    (t : Text) (s : PackageSource) → upgrade_names t s.upgrade ≡ true → UpgradesTo t s
upgrade_names-true t s h = go s.upgrade refl h
  where
    go : (o : Option PackageUpgradeSpec) → s.upgrade ≡ o → upgrade_names t o ≡ true → UpgradesTo t s
    go none e q = cc
    go (some u) e q = (u, e, eqb→eq u.new_upstream t q)

depends_on-true : (pr p : PackageRevision) → depends_on pr p ≡ true → DependsOn pr p
unfolding depends_on
depends_on-true pr p h = go p.spec.source refl (ground arith)
  where
    other_object : p.uid ≢ pr.uid
    other_object e = ground (arith, eqb_iff p.uid pr.uid)

    go :
        (o : Option PackageSource)
        → p.spec.source ≡ o
        → is_referenced_by o pr.name ≡ true
        → DependsOn pr p
    go none e q = unfold is_referenced_by in cc
    go (some s) e q = elim (Bool-cases (clone_names pr.name s.clone_from)) [
      | inl c ↦ record {
        other_object = other_object;
        source = s;
        has_source = e;
        refers = inl (clone_names-true pr.name s c);
      }
      | inr c ↦ record {
        other_object = other_object;
        source = s;
        has_source = e;
        refers = inr (upgrade_names-true pr.name s (unfold is_referenced_by in ground arith));
      }
    ]

depends_on_of : (pr p : PackageRevision) → DependsOn pr p → depends_on pr p ≡ true
unfolding depends_on is_referenced_by
depends_on_of pr p d = rw (not_eqb p.uid pr.uid d.other_object, d.has_source) (either d.refers)
  where
    not_eqb : (a b : Text) → a ≢ b → eqb a b ≡ false
    not_eqb a b n = elim (Bool-cases (eqb a b)) [ inl e ↦ absurd (n (eqb→eq a b e)) | inr e ↦ e ]

    either :
        ClonesFrom pr.name d.source ⊎ UpgradesTo pr.name d.source
        → (clone_names pr.name d.source.clone_from || upgrade_names pr.name d.source.upgrade) ≡ true
    either (inl (c, e, r)) = rw (e, r, eqb_refl pr.name) refl
    either (inr (u, e, r)) = rw (e, r, eqb_refl pr.name) (ground arith)

-- The list of the namespace is read and holds no dependent of `pr`.
pub record HasNoDependents (reader : Reader) (pr : PackageRevision) : Type 0 where
  pub listed : List PackageRevision
  pub is_listed : reader.list_revisions pr.namespace ≡ some listed
  pub none_depends : (p : PackageRevision) → Memᴰ p listed → ¬ DependsOn pr p

-- The owning repository is found to be missing, or is being deleted.
abbrev pub IsGone : GetResult → Type 0
IsGone r = (r ≡ not_found) ⊎ ((repo : Repository) × (r ≡ found repo) × (repo.deleting ≡ true))

is_owner_repo_gone_iff : (r : GetResult) → (is_owner_repo_gone r ≡ true) ↔ IsGone r
unfolding is_owner_repo_gone
is_owner_repo_gone_iff (found repo) = (λ h. inr (repo, refl, h), λ g. ground arith)
is_owner_repo_gone_iff not_found = (λ h. inl refl, λ g. refl)
is_owner_repo_gone_iff get_failed = (λ h. cc, λ g. ground arith)

not_depends : (pr p : PackageRevision) → ¬ DependsOn pr p → depends_on pr p ≡ false
not_depends pr p n = elim (Bool-cases (depends_on pr p)) [
  | inl e ↦ absurd (n (depends_on-true pr p e))
  | inr e ↦ e
]

dependents-none :
    (reader : Reader) (pr : PackageRevision)
    → on_list (check_references pr) (reader.list_revisions pr.namespace) ≡ none
    → HasNoDependents reader pr
unfolding check_references
dependents-none reader pr h =
    let (ps, e, u) = on_list-none (check_references pr) (reader.list_revisions pr.namespace) h in
    record {
      listed = ps;
      is_listed = e;
      none_depends =
          λ p m d. cc (refuse_any-none (depends_on pr) referenced ps u m, depends_on_of pr p d);
    }

dependents_of :
    (reader : Reader) (pr : PackageRevision)
    → HasNoDependents reader pr
    → on_list (check_references pr) (reader.list_revisions pr.namespace) ≡ none
unfolding check_references
dependents_of reader pr f = rw f.is_listed (
    refuse_any_of (depends_on pr) referenced f.listed
      (λ p m. not_depends pr p (f.none_depends p m)))

guard-none :
    (l : Lifecycle) (r : GetResult)
    → refuse_if (lifecycle_eq l published && not (is_owner_repo_gone r)) published_package ≡ none
    → (l ≢ published) ⊎ IsGone r
guard-none l r h = elim (Bool-cases (is_owner_repo_gone r)) [
  | inl e ↦ inr ((is_owner_repo_gone_iff r).0 e)
  | inr e ↦ inl λ p. ground (arith, lifecycle_eq_iff l published)
]

guard_of :
    (l : Lifecycle) (r : GetResult)
    → (l ≢ published) ⊎ IsGone r
    → refuse_if (lifecycle_eq l published && not (is_owner_repo_gone r)) published_package ≡ none
guard_of l r (inl n) = elim (Bool-cases (lifecycle_eq l published)) [
  | inl e ↦ absurd (n ((lifecycle_eq_iff l published).0 e))
  | inr e ↦ rw e refl
]
guard_of l r (inr g) = rw ((is_owner_repo_gone_iff r).1 g) (ground arith)

unless-none : (b : Bool) (v : Verdict) → (if b then none else v) ≡ none → (b ≡ true) ⊎ (v ≡ none)
unless-none true v h = inl refl
unless-none false v h = inr h

unless_of : (b : Bool) (v : Verdict) → (b ≡ true) ⊎ (v ≡ none) → (if b then none else v) ≡ none
unless_of true v h = refl
unless_of false v (inl e) = cc
unless_of false v (inr e) = e

-- A deletion is allowed exactly if the object is being deleted already, or the list of the namespace
-- is read and holds no revision that was cloned from it or upgraded to it, and the revision is not
-- Published or its repository is gone.
pub validate_delete_iff :
    (reader : Reader) (pr : PackageRevision)
    → (validate_delete reader pr ≡ none) ↔ (
        (pr.deleting ≡ true)
        ⊎ HasNoDependents reader pr
          × ((pr.spec.lifecycle ≢ published)
              ⊎ IsGone (reader.get_repository pr.namespace pr.spec.repository_name)))
unfolding validate_delete
validate_delete_iff reader pr = (to, from)
  where
    repo : GetResult
    repo = reader.get_repository pr.namespace pr.spec.repository_name

    to :
        validate_delete reader pr ≡ none
        → (pr.deleting ≡ true)
          ⊎ HasNoDependents reader pr × ((pr.spec.lifecycle ≢ published) ⊎ IsGone repo)
    to h = elim (unless-none pr.deleting _ h) [
      | inl e ↦ inl e
      | inr v ↦
          let (d, g) =
            then_check-none (on_list (check_references pr) (reader.list_revisions pr.namespace)) _
              v in
          inr (dependents-none reader pr d, guard-none pr.spec.lifecycle repo g)
    ]

    from :
        (pr.deleting ≡ true)
          ⊎ HasNoDependents reader pr × ((pr.spec.lifecycle ≢ published) ⊎ IsGone repo)
        → validate_delete reader pr ≡ none
    from (inl e) = unless_of pr.deleting _ (inl e)
    from (inr (d, g)) =
        unless_of pr.deleting _
          (inr (rw (dependents_of reader pr d) (guard_of pr.spec.lifecycle repo g)))
