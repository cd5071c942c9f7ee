-- ===== src/Database/Synced.antt =====
-- A row that needs no push has in git what it has in the database (pkg/cache/dbcache).
use porch.Common.{
  ℕ, Bool, true, false, not, ◌&&◌, ◌||◌, Option, none, some, ◌≡◌, refl, ap, ◌<◌, Text, Bool-cases,
  inl, inr, if◌then◌else◌,
}
use porch.Common.Int.{ℤ, pos, ℤ_lt, ℤ_eq}
use porch.Lifecycle.{Lifecycle, proposed, published}
use porch.Database.Objects.{Stored, Object, Pushed, Outcome, Calls, pr_needs_push_to_git}
use porch.Database.Publishing.{
  update_lifecycle, publish_pr, after_push, update_lifecycle_on_published_pr, with_lifecycle,
  with_revision, next_revision, unpublished_revision,
}
use porch.Database.Sessions.{drafting, holding, is_publication}
use porch.Database.Markers.{IsStamped}
use porch.Database.Saved.{IsSynced, IsOpen, IsFine, update_db-IsFine, failed-IsFine, held-IsFine}

module _ {Resources : Type 0} where
  -- A publication, once git has the resources of the database
  after_push-IsFine :
      (c : Calls) (lock : Option Text) (o : Object Resources) (s : Stored Resources)
      (p : Pushed Resources) (n : ℕ)
      → p.resources ≡ s.resources
      → IsStamped n s.row
      → o.row.updated < n
      → IsFine n (after_push c lock o s (some p))
  after_push-IsFine c none o s p n e a h =
      failed-IsFine (with_lifecycle proposed (with_revision (pos 0) o)) s (some p) n a
        (λ i. ap some e)
  after_push-IsFine c (some lock) o s p n e a h =
      update_db-IsFine c false
        (record o { row = record o.row { commit = lock; last_pushed = some o.row.updated } }) s
        (some p) n a (λ i. ap some e) (h, h) (λ i. ap some e) (λ f. cc)

  publish_pr-IsFine :
      (c : Calls) (latest : Option ℤ) (o : Object Resources) (s : Stored Resources)
      (git : Option (Pushed Resources)) (n : ℕ)
      → IsStamped n s.row
      → IsSynced s.row s.resources git
      → IsOpen n s git (drafting o)
      → IsFine n (publish_pr c latest o s git)
  publish_pr-IsFine c none o s git n a b h = failed-IsFine o s git n a b
  publish_pr-IsFine c (some latest) o s git n a b h =
      elim (Bool-cases (c.resources_read && c.pushed)) [
        | inr p ↦
            simp p (failed-IsFine (with_lifecycle proposed (with_revision (pos 0) o)) s git n a b)
        | inl p ↦ simp p (
            after_push-IsFine c c.lock
              (with_lifecycle published (with_revision (next_revision latest) o)) s
              (record { lifecycle = published; resources = s.resources }) n refl a h.0)
      ]

  ended-IsFine :
      (r : Outcome Resources) (n : ℕ) (b : Bool)
      → r.failed ≡ b
      → IsFine n r
      → IsFine n (if b then unpublished_revision r else r)
  ended-IsFine r n true e f = (f.0, (f.1.0, λ i. cc (e, i)))
  ended-IsFine r n false e f = f

  pub publication-IsFine :
      (c : Calls) (latest : Option ℤ) (now : ℕ) (new : Lifecycle) (o : Object Resources)
      (s : Stored Resources) (git : Option (Pushed Resources)) (n : ℕ)
      → is_publication o.row.lifecycle new ≡ true
      → IsStamped n s.row
      → IsSynced s.row s.resources git
      → IsOpen n s git (drafting o)
      → IsFine n (update_lifecycle c latest now new o s git)
  unfolding update_lifecycle
  publication-IsFine c latest now new o s git n q a b h = simp q (
      ended-IsFine (publish_pr c latest o s git) n (publish_pr c latest o s git).failed refl
        (publish_pr-IsFine c latest o s git n a b h))

  revised-IsOpen :
      (b : Bool) (k : ℤ) (new : Lifecycle) (o : Object Resources) (s : Stored Resources)
      (git : Option (Pushed Resources)) (n : ℕ)
      → IsOpen n s git (holding o)
      → IsOpen n s git (holding (with_lifecycle new (if b then with_revision k o else o)))
  unfolding pr_needs_push_to_git
  revised-IsOpen true k new o s git n h = h
  revised-IsOpen false k new o s git n h = h

  -- The lifecycle of a published revision
  pub on_published-IsFine :
      (c : Calls) (now : ℕ) (new : Lifecycle) (o : Object Resources) (s : Stored Resources)
      (git : Option (Pushed Resources)) (n : ℕ)
      → IsStamped n s.row
      → IsSynced s.row s.resources git
      → IsOpen n s git (holding o)
      → IsFine n (update_lifecycle_on_published_pr c now new o s git)
  on_published-IsFine c now new o s git n a b h =
      elim (Bool-cases
        (ℤ_eq o.row.key.revision (pos 0) && (not c.row_read || ℤ_lt s.row.key.revision (pos 1)))) [
          | inl e ↦ simp e (failed-IsFine o s git n a b)
          | inr e ↦ simp e (
              held-IsFine c false now
                (with_lifecycle new (
                  if ℤ_eq o.row.key.revision (pos 0)
                  then with_revision s.row.key.revision o
                  else o))
                s git n a b
                (revised-IsOpen (ℤ_eq o.row.key.revision (pos 0)) s.row.key.revision new o s git n
                  h))
        ]
