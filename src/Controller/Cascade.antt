-- ===== src/Controller/Cascade.antt =====
-- The deletion of a published revision while its repository is being deleted, as the webhook
-- (packagerevision_webhook.go) and the controller (ownership.go) see it.
use porch.Common.{true, ◌≡◌, inr, refl, [], none}
use porch.Lifecycle.{published, lifecycle_eq}
use porch.PackageRevision.{PackageRevision}
use porch.Webhook.Validator.{Reader, Repository, GetResult, validate_delete}
use porch.Webhook.Deletion.{HasNoDependents, validate_delete_iff}
use porch.Controller.Ownership.{
  RepositoryObject, Lookup, owner_repo_gone, Finalizers, Replies, finished, handle_deletion,
}

-- While the repository is still there but being deleted, the webhook allows the deletion of a
-- published revision without dependents; the controller then does nothing: it neither removes the
-- finalizer nor asks to be called again.
pub published-stays :
    (reader : Reader) (repo : Repository) (f : Finalizers) (r : Replies) (object : RepositoryObject)
    (pr : PackageRevision)
    → pr.spec.lifecycle ≡ published
    → HasNoDependents reader pr
    → reader.get_repository pr.namespace pr.spec.repository_name ≡ GetResult.found repo
    → repo.deleting ≡ true
    → r.owner ≡ Lookup.found object
    → (validate_delete reader pr ≡ none)
      × (handle_deletion f r pr ≡ record { effects = []; ending = finished })
unfolding handle_deletion lifecycle_eq owner_repo_gone
published-stays reader repo f r object pr p n g d o =
    ((validate_delete_iff reader pr).1 (inr (n, inr (inr (repo, g, d)))), simp (p, o) refl)
