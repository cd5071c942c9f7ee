-- ===== src/Watchers/Registration.antt =====
-- A new watch (pkg/engine/watchermanager.go) keeps the watchers that are not finished.
use mathlib.Core.List.{Perm, perm_append_singleton}
use mathlib.Core.List.Perm
use porch.Common.{
  ◌+◌, Bool, true, false, not, ◌≡◌, refl, ap, sym, ◌∙◌, arith, List, [], ◌∷◌, ◌++◌, Option, none,
  some, if◌then◌else◌, length, length-append, any, inl, inr, keep_if, Bool-cases,
}
use porch.Watchers.{
  Watcher, Slots, Placed, listeners, behind, place, append_unless_inserted, watch_package_revisions,
}

module _ {Filter : Type 0} (is_done : Watcher Filter → Bool) where
  abbrev pub is_live : Watcher Filter → Bool
  is_live x = not (is_done x)

  -- The watchers that are not finished.
  abbrev pub live : Slots Filter → List (Watcher Filter)
  live s = keep_if is_live (listeners s)

  -- A slot that can be used again.
  abbrev pub is_free : Option (Watcher Filter) → Bool
  is_free none = true
  is_free (some x) = is_done x

module _ {Filter : Type 0} (is_done : Watcher Filter → Bool) (w : Watcher Filter) where
  -- What the loop leaves once the watcher is in a slot.
  record Cleaned (s : Slots Filter) (p : Placed Filter) : Type 0 where
    is_inserted : p.inserted ≡ true
    same_listeners : listeners p.slots ≡ live is_done s
    same_length : length p.slots ≡ length s
    counted : p.active ≡ length (listeners p.slots)

  place-Cleaned : (s : Slots Filter) → Cleaned s (place is_done w true s)
  unfolding place
  place-Cleaned [] = record {
    is_inserted = refl;
    same_listeners = refl;
    same_length = refl;
    counted = refl;
  }
  place-Cleaned (none ∷ s) =
      let c = place-Cleaned s in
      record {
        is_inserted = c.is_inserted;
        same_listeners = c.same_listeners;
        same_length = omega (arith, c.same_length);
        counted = omega (arith, c.counted);
      }
  place-Cleaned (some x ∷ s) =
      let c = place-Cleaned s in
      record {
        is_inserted = ground (arith, c.is_inserted);
        same_listeners = ground (arith, c.same_listeners);
        same_length = ground (arith, c.same_length);
        counted = ground (arith, c.counted);
      }

  -- What the loop leaves while the watcher waits for a slot: it has one, or none was free.
  record Waited (s : Slots Filter) (p : Placed Filter) : Type 0 where
    inserted_free : p.inserted ≡ any (is_free is_done) s
    listeners_in : p.inserted ≡ true → Perm (listeners p.slots) (w ∷ live is_done s)
    listeners_out : p.inserted ≡ false → listeners p.slots ≡ live is_done s
    same_length : length p.slots ≡ length s
    counted : p.active ≡ length (listeners p.slots)

  replaced-Waited :
      (slot : Option (Watcher Filter)) (s : Slots Filter)
      → is_free is_done slot ≡ true
      → live is_done (slot ∷ s) ≡ live is_done s
      → Waited (slot ∷ s) (behind (some w) 1 (place is_done w true s))
  replaced-Waited slot s f l =
      let c = place-Cleaned s in
      record {
        inserted_free = c.is_inserted ∙ rw f refl;
        listeners_in = λ h. rw (l, c.same_listeners) (Perm.refl (w ∷ live is_done s));
        listeners_out = λ h. cc (h, c.is_inserted);
        same_length = omega (arith, c.same_length);
        counted = omega (arith, c.counted);
      }

  kept-Waited :
      (x : Watcher Filter) (s : Slots Filter)
      → is_done x ≡ false
      → Waited s (place is_done w false s)
      → Waited (some x ∷ s) (behind (some x) 1 (place is_done w false s))
  kept-Waited x s f c = record {
    inserted_free = rw f c.inserted_free;
    listeners_in =
        λ h. rw f (Perm.trans (Perm.cons x (c.listeners_in h)) (Perm.swap w x (live is_done s)));
    listeners_out = λ h. rw f (ap (λ l. x ∷ l) (c.listeners_out h));
    same_length = omega (arith, c.same_length);
    counted = omega (arith, c.counted);
  }

  place-Waited : (s : Slots Filter) → Waited s (place is_done w false s)
  unfolding place
  place-Waited [] = record {
    inserted_free = refl;
    listeners_in = λ h. cc h;
    listeners_out = λ h. refl;
    same_length = refl;
    counted = refl;
  }
  place-Waited (none ∷ s) = replaced-Waited none s refl refl
  place-Waited (some x ∷ s) = elim (Bool-cases (is_done x)) [
    | inl e ↦ rw e (replaced-Waited (some x) s e (rw e refl))
    | inr e ↦ rw e (kept-Waited x s e (place-Waited s))
  ]

  listeners-append : (s t : Slots Filter) → listeners (s ++ t) ≡ listeners s ++ listeners t
  listeners-append [] t = refl
  listeners-append (none ∷ s) t = listeners-append s t
  listeners-append (some x ∷ s) t = ap (λ l. x ∷ l) (listeners-append s t)

  appended :
      (s : Slots Filter) (p : Placed Filter)
      → Waited s p
      → Perm (listeners (append_unless_inserted is_done w p).slots) (w ∷ live is_done s)
        × ((append_unless_inserted is_done w p).active
            ≡ length (listeners (append_unless_inserted is_done w p).slots))
  appended s p c = elim (Bool-cases p.inserted) [
    | inl e ↦ rw e (c.listeners_in e, c.counted)
    | inr e ↦
        rw (e, listeners-append p.slots (some w ∷ []), c.listeners_out e)
          (
            perm_append_singleton w (live is_done s),
            omega (
              arith,
              c.counted,
              ap length (c.listeners_out e),
              length-append (live is_done s) (w ∷ []),
            ),
          )
  ]

  -- A new watch adds its watcher and removes exactly the finished ones: as a multiset, the watchers
  -- after it are the new one and those that are not finished. The number of active watchers that is
  -- logged is their number.
  pub watch-listeners :
      (s : Slots Filter)
      → Perm (listeners (watch_package_revisions is_done w s).slots) (w ∷ live is_done s)
        × ((watch_package_revisions is_done w s).active
            ≡ length (listeners (watch_package_revisions is_done w s).slots))
  unfolding watch_package_revisions
  watch-listeners s = appended s (place is_done w false s) (place-Waited s)

  -- A new watch adds a slot only if every slot holds a watcher that is not finished.
  pub watch-length :
      (s : Slots Filter)
      → length (watch_package_revisions is_done w s).slots
        ≡ (if any (is_free is_done) s then length s else length s + 1)
  unfolding watch_package_revisions
  watch-length s =
      let c = place-Waited s in
      elim (Bool-cases (place is_done w false s).inserted) [
        | inl e ↦ rw (e, sym c.inserted_free ∙ e) c.same_length
        | inr e ↦
            rw (e, sym c.inserted_free ∙ e)
              (length-append _ (some w ∷ []) ∙ omega (arith, c.same_length))
      ]
