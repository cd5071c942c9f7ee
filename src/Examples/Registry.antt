-- ===== src/Examples/Registry.antt =====
-- A revision that is proposed, approved and proposed for deletion.
use porch.Common.{Memᴰ, Bool, true, false, ◌&&◌, ◌≡◌, refl, arith, Text, codes, [], none, some, eqb}
use porch.Lifecycle.{
  Lifecycle, draft, proposed, published, deletion_proposed, lifecycle_eq, lifecycle_eq→eq,
  is_published,
}
use porch.Names.Objects.{Dns}
use porch.Registry.Strategy.{
  Spec, Revision, validate_update, can_update_to, check_transition, prepare_for_update,
  canonicalize,
}
use porch.Registry.Approval.{validate_approval}
use porch.Registry.Update.{
  admitted, validate_request, validate_prepared, revision_strategy, approval_strategy,
}
use porch.Registry.Transitions.{Approves, validate_approval_iff}
use porch.Registry.Approval.{check_current, check_desired}
use porch.Registry.Handler.{
  OldLookup, RepositoryLookup, EngineResult, Call, Environment, update_package_revision,
}
use porch.Registry.Admission.{IsAdmitted, engine-IsAdmitted}
use porch.Registry.Histories.{Step, History, Publication, History-published, History-Publication}

abbrev permissive : Dns
permissive = record { label = λ t. []; subdomain = λ t. [] }

-- The metadata and the rest of the spec are texts here.
abbrev equal_specs : Spec Text Text → Spec Text Text → Bool
equal_specs a b =
    lifecycle_eq a.lifecycle b.lifecycle
    && (eqb a.package_name b.package_name
        && (eqb a.workspace_name b.workspace_name && eqb a.rest b.rest))

equal_lifecycles : (a b : Spec Text Text) → equal_specs a b ≡ true → a.lifecycle ≡ b.lifecycle
equal_lifecycles a b h = lifecycle_eq→eq a.lifecycle b.lifecycle (ground arith)

abbrev at_stage : Lifecycle → Revision Text Text
at_stage lifecycle = record {
  latest_label = none;
  spec = record {
    package_name = codes "basens";
    workspace_name = codes "v1";
    lifecycle = lifecycle;
    package_metadata = none;
    rest = codes "tasks";
  };
}

abbrev no_create_hook : Revision Text Text → Bool
no_create_hook new = true

abbrev no_hook : Revision Text Text → Revision Text Text → Bool
no_hook new old = true

abbrev Accepted : Revision Text Text → Revision Text Text → Type 0
Accepted = Step equal_specs equal_lifecycles permissive no_create_hook no_hook

abbrev Accepts : Revision Text Text → Revision Text Text → Type 0
Accepts = History equal_specs equal_lifecycles permissive no_create_hook no_hook

proposal_accepted :
    validate_request
      (revision_strategy equal_specs permissive)
      no_create_hook
      no_hook
      (at_stage proposed)
      (some (at_stage draft))
    ≡ admitted (at_stage proposed)
unfolding validate_request validate_prepared revision_strategy validate_update can_update_to
    check_transition prepare_for_update canonicalize eqb
proposal_accepted = refl

propose : Accepted (at_stage draft) (at_stage proposed)
propose = Step.by_update (at_stage proposed) proposal_accepted

approval : (a b : Lifecycle) → Approves a b → Accepted (at_stage a) (at_stage b)
unfolding validate_request validate_prepared approval_strategy
approval a b h =
    Step.by_approval (at_stage b) (rw ((validate_approval_iff (at_stage b) (at_stage a)).1 h) refl)

history : Accepts (at_stage draft) (at_stage deletion_proposed)
history =
    History.next
      (History.next (History.next History.here propose)
        (approval proposed published Approves.approve))
      (approval published deletion_proposed Approves.propose_deletion)

is_published_now : is_published (at_stage published).spec.lifecycle ≡ true
unfolding is_published lifecycle_eq
is_published_now = refl

not_published_first : is_published (at_stage draft).spec.lifecycle ≡ false
unfolding is_published lifecycle_eq
not_published_first = refl

ends_published : is_published (at_stage deletion_proposed).spec.lifecycle ≡ true
unfolding is_published lifecycle_eq
ends_published = refl

metadata_kept : equal_specs (at_stage published).spec (at_stage published).spec ≡ true
unfolding lifecycle_eq eqb
metadata_kept = refl

History-published_example : is_published (at_stage deletion_proposed).spec.lifecycle ≡ true
History-published_example =
    History-published equal_specs equal_lifecycles permissive no_create_hook no_hook
      (History.next History.here (approval published deletion_proposed Approves.propose_deletion))
      is_published_now

History-Publication_example :
    Publication equal_specs equal_lifecycles permissive no_create_hook no_hook
      (at_stage draft)
      (at_stage deletion_proposed)
History-Publication_example =
    History-Publication equal_specs equal_lifecycles permissive no_create_hook no_hook history
      not_published_first ends_published

-- An approval of a revision whose name and repository are found.
abbrev environment : Environment (Revision Text Text)
environment = record {
  namespaced = true;
  lock_is_free = true;
  old = OldLookup.old_found (at_stage proposed);
  updated_object = λ old. some (at_stage published);
  name_repository = some (codes "repo");
  spec_repository = λ r. codes "repo";
  repository = λ name. RepositoryLookup.repository_found false;
  parent_is_found = λ r. true;
  engine_create = λ r. EngineResult.engine_refused;
  engine_update = λ old r. EngineResult.engine_done r;
}

is_called :
    Memᴰ
      (Call.update_call (at_stage proposed) (at_stage published))
      (update_package_revision approval_strategy no_create_hook no_hook environment false).calls
unfolding update_package_revision validate_request validate_prepared approval_strategy
    validate_approval check_current check_desired
is_called = Memᴰ.head refl

engine-IsAdmitted_example :
    (environment.namespaced ≡ true)
    × (environment.lock_is_free ≡ true)
    × IsAdmitted approval_strategy no_create_hook no_hook environment
        (Call.update_call (at_stage proposed) (at_stage published))
engine-IsAdmitted_example =
    engine-IsAdmitted approval_strategy no_create_hook no_hook environment
      (Call.update_call (at_stage proposed) (at_stage published)) false is_called

abbrev applying : Environment (Revision Text Text)
applying = record environment {
  old = OldLookup.old_not_found;
  updated_object = λ old. some (at_stage draft);
}
