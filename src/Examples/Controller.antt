-- ===== src/Examples/Controller.antt =====
-- Two published revisions of a package, labelled, owned and deleted.
use porch.Common.{Bool, true, false, ◌≡◌, refl, Text, codes, List, [], ◌∷◌, none, some, eqb, any}
use porch.Common.Int.{ℤ, pos}
use porch.Common.Maps.{get, get_or_empty, put}
use porch.Lifecycle.{lifecycle_eq, is_published}
use porch.PackageRevision.{PackageRevision}
use porch.Webhook.Validator.{Reader, Repository, GetResult, validate_delete}
use porch.Webhook.Deletion.{HasNoDependents}
use porch.Webhook.Cluster.{serving}
use porch.Controller.Labels.{
  latest, in_hand, consider_all, consider, seen_revision, relabel, update_latest_revision_labels,
}
use porch.Controller.Latest.{IsLatest, latest-IsLatest}
use porch.Controller.Relabelling.{IsLabelled, update-IsLabelled, update-settled}
use porch.Controller.Ownership.{
  RepositoryObject, Lookup, Finalizers, DeleteResult, PatchResult, Replies, Ending, handle_deletion,
}
use porch.Controller.Deletion.{MayGo, removes_finalizer, finalizer-MayGo}
use porch.Controller.Cascade.{published-stays}
use porch.Examples.Samples.{first_published, migrated}

abbrev numbered : Text → ℤ → PackageRevision
numbered name n = record first_published {
  name = name;
  uid = name;
  status = record first_published.status { revision = n };
}

abbrev one : PackageRevision
one = numbered (codes "p.v1") (pos 1)

abbrev two : PackageRevision
two = numbered (codes "p.v2") (pos 2)

abbrev both : List PackageRevision
both = one ∷ two ∷ []

abbrev accepting : PackageRevision → Bool
accepting p = true

abbrev refusing : PackageRevision → Bool
refusing p = false

abbrev after_both : List PackageRevision
after_both =
    record one { labels = (codes "porch.kpt.dev/latest-revision", codes "false") ∷ [] }
    ∷ record two { labels = (codes "porch.kpt.dev/latest-revision", codes "true") ∷ [] }
    ∷ []

latest-IsLatest_example : IsLatest one (one ∷ both) (latest one both)
latest-IsLatest_example = latest-IsLatest one both

is_updated : update_latest_revision_labels accepting one both ≡ (after_both, some (codes "p.v2"))
unfolding update_latest_revision_labels relabel latest in_hand consider_all consider seen_revision
    get_or_empty get put eqb is_published lifecycle_eq
is_updated = refl

update-IsLabelled_example :
    IsLabelled one both (update_latest_revision_labels accepting one both).0 (codes "p.v2")
update-IsLabelled_example = update-IsLabelled accepting one both (codes "p.v2") (rw is_updated refl)

update-settled_example :
    update_latest_revision_labels refusing one after_both ≡ (after_both, some (codes "p.v2"))
update-settled_example =
    update-settled accepting refusing one both after_both (codes "p.v2") is_updated

abbrev blueprints : RepositoryObject
blueprints = record { name = codes "blueprints"; uid = codes "u1" }

abbrev finalizer : Text
finalizer = codes "porch.kpt.dev/packagerevisions"

-- An object has this finalizer or none.
abbrev one_finalizer : Finalizers
one_finalizer = record { add = one_added; remove = one_removed }
  where
    one_added : List Text → List Text × Bool
    one_added [] = (finalizer ∷ [], true)
    one_added (x ∷ xs) = (x ∷ xs, false)

    one_removed : List Text → List Text × Bool
    one_removed [] = ([], false)
    one_removed (x ∷ xs) = ([], true)

abbrev held : PackageRevision
held = record one { finalizers = finalizer ∷ [] }

abbrev replies : Lookup → Replies
replies owner = record {
  owner = owner;
  package_deleted = DeleteResult.deleted;
  labels_updated = true;
  finalizer_patch = PatchResult.accepted;
}

finalizer-MayGo_example :
    any removes_finalizer (handle_deletion one_finalizer (replies Lookup.not_found) held).effects
    ≡ true
finalizer-MayGo_example =
    (finalizer-MayGo one_finalizer (replies Lookup.not_found) held).1
      (refl, MayGo.with_repository refl refl)

abbrev ending_repository : Repository
ending_repository = record migrated { deleting = true }

abbrev alone : Reader
alone = serving (λ namespace name. GetResult.found ending_repository) []

no_dependents : HasNoDependents alone held
no_dependents = record { listed = []; is_listed = refl; none_depends = λ p m. elim m [ ] }

published-stays_example :
    (validate_delete alone held ≡ none)
    × (handle_deletion one_finalizer (replies (Lookup.found blueprints)) held
        ≡ record { effects = []; ending = Ending.finished })
published-stays_example =
    published-stays alone ending_repository one_finalizer (replies (Lookup.found blueprints))
      blueprints held refl no_dependents refl refl refl
