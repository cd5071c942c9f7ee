-- ===== src/Database/Objects.antt =====
-- pkg/cache/dbcache/dbpackagerevision.go, dbrepository.go and dbpushtogit.go: one package revision in
-- the database, in memory and in git.
use porch.Common.{ℕ, Bool, true, false, not, ◌&&◌, Text, Option, none, some, if◌then◌else◌, ◌==◌}
use porch.Common.Int.{pos}
use porch.Lifecycle.{Lifecycle, draft, is_published}
use porch.Key.{PackageRevisionKey}
use porch.Database.{Row, is_unpublished, pushed_before, preserve_push_markers, unpushed_git_commit}

-- The row of a package revision, and its resources.
pub record Stored (Resources : Type 0) : Type 0 where
  pub row : Row
  pub resources : Resources

-- dbPackageRevision in memory
pub record Object (Resources : Type 0) : Type 0 where
  pub row : Row
  pub resources : Resources
  pub resources_dirty : Bool

-- What git has under the package and the workspace.
pub record Pushed (Resources : Type 0) : Type 0 where
  pub lifecycle : Lifecycle
  pub resources : Resources

-- The object, the row, git, and whether there was an error.
pub record Outcome (Resources : Type 0) : Type 0 where
  pub object : Object Resources
  pub stored : Stored Resources
  pub git : Option (Pushed Resources)
  pub failed : Bool

-- Which calls succeed. `resources_read` is the reading of the resources, with the row or by a call of
-- its own. `pushed` is that of all calls of the external repository up to the closing of
-- its draft, which is what changes git; `lock` is read from the closed draft.
pub record Calls : Type 0 where
  pub row_read : Bool
  pub resources_read : Bool
  pub pushed : Bool
  pub lock : Option Text
  pub row_written : Bool
  pub resources_written : Bool

-- prNeedsPushToGit
unfoldable pub pr_needs_push_to_git : Row → Bool
pr_needs_push_to_git r = pushed_before r.updated r.last_pushed

module _ {Resources : Type 0} where
  -- pkgRevSetLastPushedInDB, by its WHERE clause
  unfoldable pub set_last_pushed : Text → ℕ → Stored Resources → Stored Resources
  set_last_pushed lock expected s =
      if s.row.updated == expected && not (is_published s.row.lifecycle)
      then record s { row = record s.row { commit = lock; last_pushed = some s.row.updated } }
      else s

  abbrev pub recorded : Calls → Option Text → Stored Resources → Stored Resources
  recorded c none s = s
  recorded c (some lock) s = if c.row_written then set_last_pushed lock s.row.updated s else s

  -- PushDraftPackageRevision, which holds the lock of the package: the row, and git
  abbrev pub push_fresh :
      Calls
      → Stored Resources
      → Option (Pushed Resources)
      → Stored Resources × Option (Pushed Resources)
  push_fresh c s git =
      if not (is_unpublished s.row)
      then (s, git)
      else if not (pr_needs_push_to_git s.row)
      then (s, git)
      else if not c.resources_read
      then (s, git)
      else if not c.pushed
      then (s, git)
      else (
        recorded c c.lock s,
        some (record { lifecycle = s.row.lifecycle; resources = s.resources }),
      )

  unfoldable pub push_draft_package_revision :
      Calls
      → Stored Resources
      → Option (Pushed Resources)
      → Stored Resources × Option (Pushed Resources)
  push_draft_package_revision c s git = if c.row_read then push_fresh c s git else (s, git)

  -- The object and the row that dbRepository.CreatePackageRevisionDraft makes at the time `now`
  unfoldable pub create_package_revision_draft :
      ℕ → PackageRevisionKey → Resources → Object Resources
  create_package_revision_draft now key no_resources = record {
    row = record {
      key = record key { revision = pos 0 };
      lifecycle = draft;
      updated = now;
      last_pushed = none;
      commit = unpushed_git_commit;
    };
    resources = no_resources;
    resources_dirty = false;
  }

  -- dbPackageRevision.UpdatePackageRevision: copyToThis does not copy the lock.
  abbrev pub copy_to_this : Object Resources → Stored Resources → Object Resources
  copy_to_this o s = record o {
    row = record s.row { commit = o.row.commit };
    resources = s.resources;
  }

  -- dbRepository.UpdatePackageRevision at the time `now`
  unfoldable pub update_package_revision :
      ℕ → Object Resources → Stored Resources → Object Resources
  update_package_revision now o s =
      let copy = copy_to_this o s in
      record copy { row = record (preserve_push_markers copy.row s.row) { updated = now } }

  -- dbPackageRevision.UpdateResources
  unfoldable pub update_resources : Resources → Object Resources → Object Resources
  update_resources r o = record o { resources = r; resources_dirty = true }

  -- pkgRevUpdateDB
  abbrev pub update_db :
      Calls
      → Bool
      → Object Resources
      → Stored Resources
      → Option (Pushed Resources)
      → Outcome Resources
  update_db c save_resources o s git =
      if not c.row_written
      then record { object = o; stored = s; git = git; failed = true }
      else if not save_resources
      then record {
        object = o;
        stored = record { row = o.row; resources = s.resources };
        git = git;
        failed = false;
      }
      else if not c.resources_written
      then record {
        object = o;
        stored = record { row = o.row; resources = s.resources };
        git = git;
        failed = true;
      }
      else record {
        object = o;
        stored = record { row = o.row; resources = o.resources };
        git = git;
        failed = false;
      }

  abbrev pub preserved : Object Resources → Stored Resources → Object Resources
  preserved o s = record o { row = preserve_push_markers o.row s.row }

  abbrev pub stamped : Bool → ℕ → Bool → Object Resources → Object Resources
  stamped deployment now save_resources o =
      if save_resources && deployment then record o { row = record o.row { updated = now } } else o

  -- savePackageRevision where the row is there
  unfoldable pub save_package_revision :
      Calls
      → Bool
      → ℕ
      → Bool
      → Object Resources
      → Stored Resources
      → Option (Pushed Resources)
      → Outcome Resources
  save_package_revision c deployment now save_resources o s git =
      let fresh = stamped deployment now save_resources o in
      if not c.row_read
      then record { object = fresh; stored = s; git = git; failed = true }
      else update_db c save_resources (preserved fresh s) s git

  -- dbRepository.ClosePackageRevisionDraft
  unfoldable pub close_package_revision_draft :
      Calls
      → Bool
      → ℕ
      → Object Resources
      → Stored Resources
      → Option (Pushed Resources)
      → Outcome Resources
  close_package_revision_draft c deployment now o s git =
      save_package_revision c deployment now o.resources_dirty o s git

  -- dbPackageRevision.SetMeta, without the metadata
  unfoldable pub set_meta :
      Calls → Object Resources → Stored Resources → Option (Pushed Resources) → Outcome Resources
  set_meta c o s git =
      if not c.row_read
      then record { object = o; stored = s; git = git; failed = true }
      else update_db c false (preserved o s) s git
