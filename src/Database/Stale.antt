-- ===== src/Database/Stale.antt =====
-- A DELETE request that works on an object which an update has overtaken
-- (pkg/registry/porch/packagerevision.go, pkg/cache/dbcache).
use porch.Common.{ap, not, Bool, true, false, some, ◌≡◌, refl, ◌∷◌, Memᴰ, Text, ◌+◌}
use porch.Database.{Row, preserve_push_markers}
use porch.Database.Objects.{
  Object, Outcome, pr_needs_push_to_git, update_package_revision, update_resources,
  close_package_revision_draft, save_package_revision, set_meta,
}
use porch.Database.Sessions.{
  State, Steps, idle, fetched, fetch, update, edit, close, leave, read_object, mark, here, next,
}
use porch.Database.Convergence.{succeeding, same_number}

kept_markers :
    (o existing : Row)
    → o.last_pushed ≡ some o.updated
    → pr_needs_push_to_git (preserve_push_markers o existing) ≡ false
unfolding preserve_push_markers pr_needs_push_to_git
kept_markers o existing p = simp p (ap not (same_number o.updated))

module _ {Resources : Type 0} where
  -- The object of an update that brings the resources `r`
  abbrev edited_object : State Resources → Resources → Object Resources
  edited_object a r =
      update_resources r (update_package_revision a.clock (fetched a.stored) a.stored)

  abbrev edit_saved : Bool → State Resources → Resources → Text → Outcome Resources
  edit_saved deployment a r lock =
      close_package_revision_draft (succeeding lock) deployment (a.clock + 1) (edited_object a r)
        a.stored a.git

  abbrev left : Bool → State Resources → Resources → Text → State Resources
  left deployment a r lock = record a {
    read = fetched a.stored ∷ a.read;
    stored = (edit_saved deployment a r lock).stored;
    git = (edit_saved deployment a r lock).git;
    session = idle;
    clock = a.clock + 1 + 1;
  }

  abbrev marked : Bool → State Resources → Resources → Text → State Resources
  marked deployment a r lock =
      let b = left deployment a r lock in
      let m = set_meta (succeeding lock) (fetched a.stored) b.stored b.git in
      record b { stored = m.stored; git = m.git }

  overtaking :
      (deployment : Bool) (a : State Resources) (r : Resources) (lock : Text)
      → a.session ≡ idle
      → Steps deployment a (marked deployment a r lock)
  overtaking deployment a r lock e =
      next
        (next
          (next
            (next (next (next (next here read_object) (fetch e)) (update (fetched a.stored) refl))
              (edit (update_package_revision a.clock (fetched a.stored) a.stored) r refl))
            (close (succeeding lock) (edited_object a r) refl))
          leave)
        (mark (succeeding lock) (fetched a.stored) (Memᴰ.head refl) refl)

  marked-resources :
      (deployment : Bool) (a : State Resources) (r : Resources) (lock : Text)
      → (marked deployment a r lock).stored.resources ≡ r
  unfolding set_meta close_package_revision_draft save_package_revision update_resources
  marked-resources true a r lock = refl
  marked-resources false a r lock = refl

  marked-settled :
      (deployment : Bool) (a : State Resources) (r : Resources) (lock : Text)
      → a.stored.row.last_pushed ≡ some a.stored.row.updated
      → pr_needs_push_to_git (marked deployment a r lock).stored.row ≡ false
  unfolding set_meta
  marked-settled deployment a r lock p =
      kept_markers a.stored.row (left deployment a r lock).stored.row p

  -- From a state without an update request whose row is as it was last pushed, a DELETE request that
  -- only marks the revision, whose object was fetched before an update brought other resources and
  -- which takes the mutex after it, leaves a row with the new resources that needs no push, though git
  -- has not changed; all calls succeed.
  pub stale-mark-unsynced :
      (deployment : Bool) (a : State Resources) (r : Resources) (lock : Text)
      → a.session ≡ idle
      → a.stored.row.last_pushed ≡ some a.stored.row.updated
      → (b : State Resources) × Steps deployment a b
        × (b.stored.resources ≡ r)
        × (pr_needs_push_to_git b.stored.row ≡ false)
        × (b.git ≡ a.git)
  unfolding set_meta close_package_revision_draft save_package_revision update_resources
  stale-mark-unsynced deployment a r lock e p = (
    marked deployment a r lock,
    overtaking deployment a r lock e,
    marked-resources deployment a r lock,
    marked-settled deployment a r lock p,
    refl,
  )
