-- ===== src/Watchers/Slots.antt =====
-- How many slots a watcher manager ends up with (pkg/engine/watchermanager.go).
use porch.Common.{
  ℕ, ◌+◌, ◌≤◌, Bool, false, ◌≡◌, refl, arith, [], ◌∷◌, none, some, length, any, Bool-cases, inl,
  inr,
}
use porch.Watchers.{Watcher, Slots, watch_package_revisions, notify_package_revision_change}
use porch.Watchers.Registration.{live, is_free, watch-length}
use porch.Watchers.Delivery.{notify-Delivered}

module _ {Filter : Type 0} where
  -- One call. Which watchers are finished may differ from call to call; where a watch is added, at
  -- most `n` of those in the slots are not.
  pub data Call (n : ℕ) (before after : Slots Filter) : Type 0 where
    watch :
        (is_done : Watcher Filter → Bool) (w : Watcher Filter)
        → length (live is_done before) ≤ n
        → (watch_package_revisions is_done w before).slots ≡ after
        → Call n before after
    notify :
        (is_done keep_going : Watcher Filter → Bool)
        → (notify_package_revision_change is_done keep_going before).slots ≡ after
        → Call n before after

  -- The calls since the manager was made, with the mutex held in each.
  pub data Calls (n : ℕ) : Slots Filter → Type 0 where
    here : Calls n []
    next : {s t : Slots Filter} → Calls n s → Call n s t → Calls n t

  all-live :
      (is_done : Watcher Filter → Bool) (s : Slots Filter)
      → any (is_free is_done) s ≡ false
      → length (live is_done s) ≡ length s
  all-live is_done [] h = refl
  all-live is_done (none ∷ s) h = cc
  all-live is_done (some x ∷ s) h = ground (arith, all-live is_done s)

  Call-length : (n : ℕ) {s t : Slots Filter} → Call n s t → length s ≤ n + 1 → length t ≤ n + 1
  Call-length n {s} {t} (watch is_done w few e) h =
      rw (← e) (elim (Bool-cases (any (is_free is_done) s)) [
        | inl f ↦ rw (watch-length is_done w s, f) h
        | inr f ↦ rw (watch-length is_done w s, f) (omega (arith, few, all-live is_done s f))
      ])
  Call-length n {s} {t} (notify is_done keep_going e) h =
      rw (← e) (omega (arith, h, (notify-Delivered is_done keep_going s).same_length))

  -- If at most `n` watchers are unfinished whenever a watch is added, the manager never has more
  -- than `n + 1` slots, however many watches there have been.
  pub Calls-length : (n : ℕ) {s : Slots Filter} → Calls n s → length s ≤ n + 1
  Calls-length n here = omega arith
  Calls-length n (next c d) = Call-length n d (Calls-length n c)
