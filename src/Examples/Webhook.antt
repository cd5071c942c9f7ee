-- ===== src/Examples/Webhook.antt =====
-- Requests that the v1alpha2 webhook answers.
use porch.Common.{
  Text, codes, true, false, ◌≡◌, ◌≢◌, ◌⊎◌, refl, [], ◌∷◌, Memᴰ, none, some, eqb, eqb_iff,
}
use porch.Common.Maps.{get, get_or_empty}
use porch.Lifecycle.{published, deletion_proposed, lifecycle_eq, is_valid}
use porch.PackageRevision.{PackageRevision}
use porch.Webhook.Equality.{
  source_equal, option_equal, source_fields_equal, init_equal, keywords_equal,
  subpackage_operation_changed, subpackage_operation_unchanged_iff,
}
use porch.Webhook.Validator.{
  validate_create, validate_update, validate_delete, check_lifecycle_transition, check_initial,
  check_repository_and_workspace, check_annotation, check_unique, refuse_any, same_workspace,
  check_immutable, check_lifecycle_change, check_render_race, check_references, depends_on,
  is_referenced_by, is_owner_repo_gone,
}
use porch.Webhook.Updates.{IsAllowedUpdate, webhook_update_iff}
use porch.Webhook.Creation.{IsAllowedCreation, validate_create_iff}
use porch.Webhook.Deletion.{validate_delete_iff, HasNoDependents, IsGone}
use porch.Webhook.Cluster.{serving, Request, Requests, IsSeen, AreDistinct, Requests-AreDistinct}
use porch.Webhook.Overlapping.{overlapping-duplicate}
use porch.Webhook.Agreement.{lifecycle_versions_agree, IsAccepted}
use porch.Registry.Strategy.{Spec, Revision}
use porch.Common.{Bool, ◌↔◌, ◌&&◌, arith}
use porch.Lifecycle.{lifecycle_eq_iff}
use porch.Examples.Samples.{
  one_repository, one_operation, first_draft, first_proposed, second_draft,
}

first_created : validate_create (serving one_repository []) first_draft ≡ none
unfolding validate_create check_initial check_repository_and_workspace check_annotation get eqb
    check_unique refuse_any
first_created = refl

second_created : validate_create (serving one_repository (first_draft ∷ [])) second_draft ≡ none
unfolding validate_create check_initial check_repository_and_workspace check_annotation get eqb
    check_unique refuse_any same_workspace
second_created = refl

first_updated : validate_update first_draft first_proposed ≡ none
unfolding validate_update check_immutable check_lifecycle_change check_render_race
    check_lifecycle_transition eqb get_or_empty get source_equal option_equal source_fields_equal
    init_equal keywords_equal subpackage_operation_changed lifecycle_eq
first_updated = refl

first_deleted :
    validate_delete (serving one_repository (first_draft ∷ second_draft ∷ [])) first_draft ≡ none
unfolding validate_delete check_references refuse_any depends_on is_referenced_by is_owner_repo_gone
    eqb lifecycle_eq
first_deleted = refl

names_differ : eqb first_proposed.name second_draft.name ≡ false
unfolding eqb
names_differ = refl

other_name : (p : PackageRevision) → Memᴰ p (first_proposed ∷ []) → p.name ≢ second_draft.name
other_name p (Memᴰ.head e) =
    rw e (λ q. cc ((eqb_iff first_proposed.name second_draft.name).1 q, names_differ))
other_name p (Memᴰ.tail m) = elim m [ ]

proposed-IsSeen : (p : PackageRevision) → Memᴰ p (first_proposed ∷ []) → IsSeen (first_draft ∷ []) p
proposed-IsSeen p (Memᴰ.head e) = rw e (
  first_draft,
  Memᴰ.head refl,
  refl,
  record { repository = refl; package_name = refl; workspace = refl },
)
proposed-IsSeen p (Memᴰ.tail m) = elim m [ ]

-- The second creation is validated with the first revision as it was before its update.
three-Requests : Requests [] (second_draft ∷ first_proposed ∷ [])
three-Requests =
    Requests.next
      (Requests.next
        (Requests.next Requests.here
          (Request.create one_repository [] first_draft (λ p m. elim m [ ]) first_created refl)
          (λ p m. elim m [ ]))
        (Request.update [] [] first_draft first_proposed refl refl first_updated refl) tt)
      (Request.create one_repository (first_draft ∷ []) second_draft other_name second_created refl)
      proposed-IsSeen

Requests-AreDistinct_example : AreDistinct (second_draft ∷ first_proposed ∷ [])
Requests-AreDistinct_example = Requests-AreDistinct three-Requests

abbrev second_name : Text
second_name = codes "twice"

draft_names : first_draft.name ≢ second_name
draft_names q = cc ((eqb_iff first_draft.name second_name).1 q, apart)
  where
    apart : eqb first_draft.name second_name ≡ false
    apart = unfold eqb in refl

overlapping-duplicate_example :
    (validate_create (serving one_repository []) (record first_draft { name = second_name }) ≡ none)
    × Request [] (first_draft ∷ [])
    × Request (first_draft ∷ []) (record first_draft { name = second_name } ∷ first_draft ∷ [])
    × (¬ AreDistinct (record first_draft { name = second_name } ∷ first_draft ∷ []))
overlapping-duplicate_example =
    overlapping-duplicate one_repository [] first_draft second_name (λ p m. elim m [ ]) draft_names
      first_created

webhook_update_iff_example : IsAllowedUpdate first_draft first_proposed
webhook_update_iff_example = (webhook_update_iff first_draft first_proposed).0 first_updated

validate_create_iff_example :
    IsAllowedCreation (serving one_repository (first_draft ∷ [])) second_draft
validate_create_iff_example =
    (validate_create_iff (serving one_repository (first_draft ∷ [])) second_draft).0 second_created

validate_delete_iff_example :
    (first_draft.deleting ≡ true)
    ⊎ HasNoDependents (serving one_repository (first_draft ∷ second_draft ∷ [])) first_draft
      × ((first_draft.spec.lifecycle ≢ published)
          ⊎ IsGone (one_repository first_draft.namespace first_draft.spec.repository_name))
validate_delete_iff_example =
    (validate_delete_iff (serving one_repository (first_draft ∷ second_draft ∷ [])) first_draft).0
      first_deleted

keeps_proposal : check_lifecycle_transition deletion_proposed published ≡ none
unfolding check_lifecycle_transition
keeps_proposal = refl

both_valid : (is_valid deletion_proposed ≡ true) × (is_valid published ≡ true)
unfolding is_valid
both_valid = (refl, refl)

abbrev v1_revision : Revision Text Text
v1_revision = record {
  latest_label = none;
  spec = record {
    package_name = codes "ns";
    workspace_name = codes "v1";
    lifecycle = published;
    package_metadata = none;
    rest = [];
  };
}

abbrev same_names : Spec Text Text → Spec Text Text → Bool
same_names a b =
    eqb a.package_name b.package_name
    && (eqb a.workspace_name b.workspace_name && lifecycle_eq a.lifecycle b.lifecycle)

same_names-refl : (s : Spec Text Text) → same_names s s ≡ true
same_names-refl s = ground (
  arith,
  eqb_iff s.package_name s.package_name,
  eqb_iff s.workspace_name s.workspace_name,
  lifecycle_eq_iff s.lifecycle s.lifecycle,
)

same_names-lifecycle : (a b : Spec Text Text) → same_names a b ≡ true → a.lifecycle ≡ b.lifecycle
same_names-lifecycle a b h = ground (arith, lifecycle_eq_iff a.lifecycle b.lifecycle)

not_published : deletion_proposed ≢ published
not_published q = cc q

lifecycle_versions_agree_example :
    (check_lifecycle_transition deletion_proposed published ≡ none)
    ↔ IsAccepted same_names same_names-refl same_names-lifecycle v1_revision deletion_proposed
        published
lifecycle_versions_agree_example =
    lifecycle_versions_agree same_names same_names-refl same_names-lifecycle v1_revision
      deletion_proposed published both_valid.0 both_valid.1 not_published

same_operation : subpackage_operation_changed (some one_operation) (some one_operation) ≡ false
same_operation =
    (subpackage_operation_unchanged_iff (some one_operation) (some one_operation)).1 refl
