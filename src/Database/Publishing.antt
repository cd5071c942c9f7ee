-- ===== src/Database/Publishing.antt =====
-- pkg/cache/dbcache/dbpackagerevision.go: the lifecycle of a package revision in the database.
use porch.Common.{
  ℕ, true, false, not, ◌&&◌, ◌||◌, Text, Option, none, some, if◌then◌else◌, ◌==◌, ◌+◌, ◌-◌,
}
use porch.Common.Int.{ℤ, pos, negsuc, ℤ_lt, ℤ_eq}
use porch.Lifecycle.{Lifecycle, proposed, published, lifecycle_eq, is_published}
use porch.Database.Objects.{
  Calls, Object, Outcome, Pushed, Stored, save_package_revision, update_db,
}

-- n + 1
abbrev pub next_revision : ℤ → ℤ
next_revision (pos n) = pos (n + 1)
next_revision (negsuc n) = if n == 0 then pos 0 else negsuc (n - 1)

module _ {Resources : Type 0} where
  abbrev pub with_revision : ℤ → Object Resources → Object Resources
  with_revision n o = record o { row = record o.row { key = record o.row.key { revision = n } } }

  abbrev pub with_lifecycle : Lifecycle → Object Resources → Object Resources
  with_lifecycle l o = record o { row = record o.row { lifecycle = l } }

  -- The end of publishPR, once git has the revision: its markers, and the row
  abbrev pub after_push :
      Calls
      → Option Text
      → Object Resources
      → Stored Resources
      → Option (Pushed Resources)
      → Outcome Resources
  after_push c none o s git = record {
    object = with_lifecycle proposed (with_revision (pos 0) o);
    stored = s;
    git = git;
    failed = true;
  }
  after_push c (some lock) o s git =
      update_db c false
        (record o { row = record o.row { commit = lock; last_pushed = some o.row.updated } }) s git

  -- publishPR up to the row, and PushPublishedPackageRevision, which reads the resources from the
  -- database; `latest` is the latest revision of the package, if it can be read
  abbrev pub publish_pr :
      Calls
      → Option ℤ
      → Object Resources
      → Stored Resources
      → Option (Pushed Resources)
      → Outcome Resources
  publish_pr c none o s git = record { object = o; stored = s; git = git; failed = true }
  publish_pr c (some latest) o s git =
      if not (c.resources_read && c.pushed)
      then record {
        object = with_lifecycle proposed (with_revision (pos 0) o);
        stored = s;
        git = git;
        failed = true;
      }
      else after_push c c.lock (with_lifecycle published (with_revision (next_revision latest) o)) s
          (some (record { lifecycle = published; resources = s.resources }))

  -- updateLifecycleOnPublishedPR
  abbrev pub update_lifecycle_on_published_pr :
      Calls
      → ℕ
      → Lifecycle
      → Object Resources
      → Stored Resources
      → Option (Pushed Resources)
      → Outcome Resources
  update_lifecycle_on_published_pr c now new o s git =
      if ℤ_eq o.row.key.revision (pos 0) && (not c.row_read || ℤ_lt s.row.key.revision (pos 1))
      then record { object = o; stored = s; git = git; failed = true }
      else save_package_revision c false now false
          (with_lifecycle new
            (if ℤ_eq o.row.key.revision (pos 0) then with_revision s.row.key.revision o else o))
          s git

  abbrev pub unpublished_revision : Outcome Resources → Outcome Resources
  unpublished_revision r = record r { object = with_revision (pos 0) r.object }

  -- dbPackageRevision.UpdateLifecycle
  unfoldable pub update_lifecycle :
      Calls
      → Option ℤ
      → ℕ
      → Lifecycle
      → Object Resources
      → Stored Resources
      → Option (Pushed Resources)
      → Outcome Resources
  update_lifecycle c latest now new o s git =
      let r = publish_pr c latest o s git in
      if lifecycle_eq o.row.lifecycle proposed && lifecycle_eq new published
      then (if r.failed then unpublished_revision r else r)
      else if is_published o.row.lifecycle
      then update_lifecycle_on_published_pr c now new o s git
      else record { object = with_lifecycle new o; stored = s; git = git; failed = false }
