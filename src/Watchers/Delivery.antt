-- ===== src/Watchers/Delivery.antt =====
-- Which watchers a change reaches (pkg/engine/watchermanager.go).
use porch.Common.{
  Bool, false, ◌≡◌, refl, ap, arith, [], ◌∷◌, Option, none, some, length, keep_if, Bool-cases, inl,
  inr,
}
use porch.Watchers.{
  Watcher, Slots, Notified, listeners, skipped, called_first, notify_package_revision_change,
}
use porch.Watchers.Registration.{live}

module _ {Filter : Type 0} (is_done keep_going : Watcher Filter → Bool) where
  -- What a notification does to the slots `s`.
  pub record Delivered (s : Slots Filter) (n : Notified Filter) : Type 0 where
    pub reached : n.called ≡ live is_done s
    pub counted : n.sent ≡ length n.called
    pub remaining : listeners n.slots ≡ keep_if keep_going (live is_done s)
    pub same_length : length n.slots ≡ length s

  called-Delivered :
      (x : Watcher Filter) (s : Slots Filter) (n : Notified Filter)
      → is_done x ≡ false
      → Delivered s n
      → Delivered (some x ∷ s) (called_first x (keep_going x) n)
  called-Delivered x s n e d = record {
    reached = rw e (ap (λ l. x ∷ l) d.reached);
    counted = omega (arith, d.counted);
    remaining = ground (arith, d.remaining);
    same_length = omega (arith, d.same_length);
  }

  skipped-Delivered :
      (slot : Option (Watcher Filter)) (s : Slots Filter) (n : Notified Filter)
      → live is_done (slot ∷ s) ≡ live is_done s
      → Delivered s n
      → Delivered (slot ∷ s) (skipped n)
  skipped-Delivered slot s n e d = record {
    reached = rw e d.reached;
    counted = d.counted;
    remaining = rw e d.remaining;
    same_length = omega (arith, d.same_length);
  }

  -- A change is delivered to every watcher that is not finished, once and in the order of the slots,
  -- whatever its filter; their number is returned. The watchers that remain are those of them that
  -- want to go on, and no slot is added or dropped.
  pub notify-Delivered :
      (s : Slots Filter) → Delivered s (notify_package_revision_change is_done keep_going s)
  unfolding notify_package_revision_change
  notify-Delivered [] = record {
    reached = refl;
    counted = refl;
    remaining = refl;
    same_length = refl;
  }
  notify-Delivered (none ∷ s) = skipped-Delivered none s _ refl (notify-Delivered s)
  notify-Delivered (some x ∷ s) = elim (Bool-cases (is_done x)) [
    | inl e ↦ rw e (skipped-Delivered (some x) s _ (rw e refl) (notify-Delivered s))
    | inr e ↦ rw e (called-Delivered x s _ e (notify-Delivered s))
  ]
