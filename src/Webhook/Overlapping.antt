-- ===== src/Webhook/Overlapping.antt =====
-- Two creations that the v1alpha2 webhook answers before either object is stored.
use porch.Common.{◌≡◌, ◌≢◌, inl, inr, refl, sym, Text, List, ◌∷◌, Memᴰ, none, some-injective, subst}
use porch.PackageRevision.{PackageRevision}
use porch.Webhook.Validator.{GetResult, validate_create}
use porch.Webhook.Creation.{IsAllowedCreation, validate_create_iff}
use porch.Webhook.Cluster.{serving, Request, create, AreDistinct}

-- The check of a creation reads the name only to leave out the object itself.
renamed-IsAllowed :
    (repositories : Text → Text → GetResult) (seen : List PackageRevision) (pr : PackageRevision)
    (name : Text)
    → ((p : PackageRevision) → Memᴰ p seen → p.name ≢ pr.name)
    → IsAllowedCreation (serving repositories seen) pr
    → IsAllowedCreation (serving repositories seen) (record pr { name = name })
renamed-IsAllowed repositories seen pr name fresh a = record {
  no_operation = a.no_operation;
  initial = a.initial;
  migrated = a.migrated;
  free = record {
    listed = a.free.listed;
    is_listed = a.free.is_listed;
    none_shares = λ p m. elim (a.free.none_shares p m) [
      | inl i ↦
          absurd
            (fresh p (subst (λ ps. Memᴰ p ps) (sym (some-injective _ _ a.free.is_listed)) m) i.0)
      | inr n ↦ inr λ s. n (record {
        repository = s.repository;
        package_name = s.package_name;
        workspace = s.workspace;
      })
    ];
  };
}

new_name :
    (stored : List PackageRevision) (pr : PackageRevision) (name : Text)
    → ((p : PackageRevision) → Memᴰ p stored → p.name ≢ name)
    → pr.name ≢ name
    → (p : PackageRevision) → Memᴰ p (pr ∷ stored)
    → p.name ≢ name
new_name stored pr name fresh d p (Memᴰ.head e) = rw e d
new_name stored pr name fresh d p (Memᴰ.tail m) = fresh p m

-- Two creations of one revision under two names that are both validated before either is stored:
-- where the webhook allows the first one on the list of the stored revisions, it allows the second one
-- on that list, and when both are stored, two revisions share repository, package and workspace.
pub overlapping-duplicate :
    (repositories : Text → Text → GetResult) (stored : List PackageRevision) (pr : PackageRevision)
    (name : Text)
    → ((p : PackageRevision) → Memᴰ p stored → (p.name ≢ pr.name) × (p.name ≢ name))
    → pr.name ≢ name
    → validate_create (serving repositories stored) pr ≡ none
    → (validate_create (serving repositories stored) (record pr { name = name }) ≡ none)
      × Request stored (pr ∷ stored)
      × Request (pr ∷ stored) (record pr { name = name } ∷ pr ∷ stored)
      × (¬ AreDistinct (record pr { name = name } ∷ pr ∷ stored))
overlapping-duplicate repositories stored pr name fresh differs ok =
    let again = (validate_create_iff (serving repositories stored) (record pr { name = name })).1 (
      renamed-IsAllowed repositories stored pr name (λ p m. (fresh p m).0)
        ((validate_create_iff (serving repositories stored) pr).0 ok)) in
    (
      again,
      create repositories stored pr (λ p m. (fresh p m).0) ok refl,
      create repositories stored (record pr { name = name })
          (new_name stored pr name (λ p m. (fresh p m).1) differs) again refl,
      λ d. d.0.0 (record { repository = refl; package_name = refl; workspace = refl }),
    )
