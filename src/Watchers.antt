-- ===== src/Watchers.antt =====
-- pkg/engine/watchermanager.go: the list of the watchers of package revisions, whose slots are used
-- again, and the delivery of changes to them.
pub mod Registration
pub mod Delivery
pub mod Slots
use porch.Common.{
  ℕ, zero, suc, ◌+◌, Bool, true, false, not, List, [], ◌∷◌, ◌++◌, Option, none, some, if◌then◌else◌,
}

-- A watcher, with the number of its object standing for the pointer. isDoneFunction and the callback
-- are given to the operations: what they return depends on when they are called.
pub record Watcher (Filter : Type 0) : Type 0 where
  pub number : ℕ
  pub filter : Filter

-- r.watchers: a slot is nil where a watch has ended
abbrev pub Slots : Type 0 → Type 0
Slots Filter = List (Option (Watcher Filter))

-- What the loop of WatchPackageRevisions leaves: the slots, whether the new watcher is in one, and
-- the number of active watchers.
pub record Placed (Filter : Type 0) : Type 0 where
  pub slots : Slots Filter
  pub inserted : Bool
  pub active : ℕ

-- What NotifyPackageRevisionChange leaves: the slots, the watchers whose callback was called, in
-- that order, and the number that it returns.
pub record Notified (Filter : Type 0) : Type 0 where
  pub slots : Slots Filter
  pub called : List (Watcher Filter)
  pub sent : ℕ

module _ {Filter : Type 0} where
  abbrev pub listeners : Slots Filter → List (Watcher Filter)
  listeners [] = []
  listeners (none ∷ s) = listeners s
  listeners (some x ∷ s) = x ∷ listeners s

  abbrev pub behind : Option (Watcher Filter) → ℕ → Placed Filter → Placed Filter
  behind slot n p = record { slots = slot ∷ p.slots; inserted = p.inserted; active = n + p.active }

  module _ (is_done : Watcher Filter → Bool) (w : Watcher Filter) where
    -- The loop; the Boolean is `inserted`.
    unfoldable pub place : Bool → Slots Filter → Placed Filter
    place inserted [] = record { slots = []; inserted = inserted; active = 0 }
    place true (none ∷ s) = behind none 0 (place true s)
    place false (none ∷ s) = behind (some w) 1 (place true s)
    place true (some x ∷ s) =
        let rest = place true s in if is_done x then behind none 0 rest else behind (some x) 1 rest
    place false (some x ∷ s) =
        let replaced = place true s in
        let kept = place false s in
        if is_done x then behind (some w) 1 replaced else behind (some x) 1 kept

    abbrev pub append_unless_inserted : Placed Filter → Placed Filter
    append_unless_inserted p =
        if p.inserted
        then p
        else record { slots = p.slots ++ some w ∷ []; inserted = false; active = p.active + 1 }

    -- WatchPackageRevisions: the slots after it, with the number of active watchers that it logs
    unfoldable pub watch_package_revisions : Slots Filter → Placed Filter
    watch_package_revisions s = append_unless_inserted (place false s)

  abbrev pub skipped : Notified Filter → Notified Filter
  skipped n = record { slots = none ∷ n.slots; called = n.called; sent = n.sent }

  abbrev pub called_first : Watcher Filter → Bool → Notified Filter → Notified Filter
  called_first x keep_going n = record {
    slots = (if keep_going then some x else none) ∷ n.slots;
    called = x ∷ n.called;
    sent = n.sent + 1;
  }

  -- NotifyPackageRevisionChange; `keep_going` is what a watcher's callback returns for the change
  unfoldable pub notify_package_revision_change :
      (Watcher Filter → Bool) → (Watcher Filter → Bool) → Slots Filter → Notified Filter
  notify_package_revision_change is_done keep_going [] = record {
    slots = [];
    called = [];
    sent = 0;
  }
  notify_package_revision_change is_done keep_going (none ∷ s) =
      skipped (notify_package_revision_change is_done keep_going s)
  notify_package_revision_change is_done keep_going (some x ∷ s) =
      let rest = notify_package_revision_change is_done keep_going s in
      if is_done x then skipped rest else called_first x (keep_going x) rest
