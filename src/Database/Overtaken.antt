-- ===== src/Database/Overtaken.antt =====
-- A push between the creation of a draft and its first saving (pkg/engine/engine.go, pkg/cache/dbcache).
use porch.Common.{ℕ, Bool, true, false, not, Option, some, ◌≡◌, refl, ap, ◌==◌, Text}
use porch.Key.{PackageRevisionKey}
use porch.Lifecycle.{draft, lifecycle_eq}
use porch.Database.{is_unpublished, preserve_push_markers}
use porch.Database.Objects.{
  Stored, Pushed, Outcome, pr_needs_push_to_git, push_draft_package_revision, update_resources,
  save_package_revision, close_package_revision_draft, create_package_revision_draft,
}
use porch.Database.Convergence.{succeeding, pushed_draft, same_number}
use porch.Database.Saved.{contents}

module _ {Resources : Type 0} where
  abbrev pub created : ℕ → PackageRevisionKey → Resources → Stored Resources
  created now key no_resources =
      let o = create_package_revision_draft now key no_resources in
      record { row = o.row; resources = o.resources }

  abbrev pub pushed_early :
      ℕ
      → PackageRevisionKey
      → Resources
      → Text
      → Option (Pushed Resources)
      → Stored Resources × Option (Pushed Resources)
  pushed_early now key no_resources lock git =
      push_draft_package_revision (succeeding lock) (created now key no_resources) git

  -- The creation, a push, and the saving of the resources
  abbrev pub overtaken :
      Bool
      → ℕ
      → ℕ
      → PackageRevisionKey
      → Resources
      → Resources
      → Text
      → Option (Pushed Resources)
      → Outcome Resources
  overtaken deployment now later key no_resources r lock git =
      let p = pushed_early now key no_resources lock git in
      close_package_revision_draft (succeeding lock) deployment later
        (update_resources r (create_package_revision_draft now key no_resources)) p.0 p.1

  pushed_created :
      (now : ℕ) (key : PackageRevisionKey) (no_resources : Resources) (lock : Text)
      (git : Option (Pushed Resources))
      → pushed_early now key no_resources lock git ≡ (
        record (created now key no_resources) {
          row = record (created now key no_resources).row { commit = lock; last_pushed = some now };
        },
        some (record { lifecycle = draft; resources = no_resources }),
      )
  unfolding create_package_revision_draft is_unpublished lifecycle_eq pr_needs_push_to_git
  pushed_created now key no_resources lock git =
      pushed_draft lock (created now key no_resources) git refl refl

  -- Where a push of a new draft comes between its creation and the saving of its resources at another
  -- time, and all calls succeed, git has the draft without resources; the row has them then, and needs
  -- a push exactly if the repository is a deployment one.
  pub overtaken-unsynced :
      (deployment : Bool) (now later : ℕ) (key : PackageRevisionKey) (no_resources r : Resources)
      (lock : Text) (git : Option (Pushed Resources))
      → (later == now) ≡ false
      → (contents (overtaken deployment now later key no_resources r lock git).git
          ≡ some no_resources)
        × ((overtaken deployment now later key no_resources r lock git).stored.resources ≡ r)
        × (pr_needs_push_to_git
              (overtaken deployment now later key no_resources r lock git).stored.row
            ≡ deployment)
  unfolding close_package_revision_draft save_package_revision update_resources
      create_package_revision_draft preserve_push_markers pr_needs_push_to_git
  overtaken-unsynced true now later key no_resources r lock git h =
      rw (pushed_created now key no_resources lock git) (refl, refl, ap not h)
  overtaken-unsynced false now later key no_resources r lock git h =
      rw (pushed_created now key no_resources lock git) (refl, refl, ap not (same_number now))
