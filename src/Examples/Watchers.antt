-- ===== src/Examples/Watchers.antt =====
-- Three watches, of which the first one ends.
use mathlib.Core.List.{Perm}
use porch.Common.{ℕ, ◌==◌, Bool, true, false, ◌≡◌, refl, arith, [], ◌∷◌, some, length}
use porch.Watchers.{
  Watcher, Slots, listeners, place, watch_package_revisions, notify_package_revision_change,
}
use porch.Watchers.Registration.{live, watch-listeners}
use porch.Watchers.Delivery.{Delivered, notify-Delivered}
use porch.Watchers.Slots.{Call, Calls}

abbrev watcher : ℕ → Watcher Bool
watcher n = record { number = n; filter = true }

abbrev first_is_done : Watcher Bool → Bool
first_is_done x = x.number == 1

abbrev none_is_done : Watcher Bool → Bool
none_is_done x = false

abbrev second_stops : Watcher Bool → Bool
second_stops x = x.number == 3

abbrev two_slots : Slots Bool
two_slots = some (watcher 1) ∷ some (watcher 2) ∷ []

abbrev used_again : Slots Bool
used_again = some (watcher 3) ∷ some (watcher 2) ∷ []

two-Calls : Calls 1 two_slots
unfolding watch_package_revisions place
two-Calls =
    Calls.next (Calls.next Calls.here (Call.watch none_is_done (watcher 1) (omega arith) refl))
      (Call.watch none_is_done (watcher 2) (omega arith) refl)

three-Calls : Calls 1 used_again
unfolding watch_package_revisions place
three-Calls = Calls.next two-Calls (Call.watch first_is_done (watcher 3) (omega arith) refl)

watch-listeners_example :
    Perm
      (listeners (watch_package_revisions first_is_done (watcher 3) two_slots).slots)
      (watcher 3 ∷ live first_is_done two_slots)
    × ((watch_package_revisions first_is_done (watcher 3) two_slots).active
        ≡ length (listeners (watch_package_revisions first_is_done (watcher 3) two_slots).slots))
watch-listeners_example = watch-listeners first_is_done (watcher 3) two_slots

notify-Delivered_example :
    Delivered first_is_done second_stops used_again
      (notify_package_revision_change first_is_done second_stops used_again)
notify-Delivered_example = notify-Delivered first_is_done second_stops used_again
