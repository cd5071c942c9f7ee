-- ===== src/Database/Convergence.antt =====
-- What git has of a package revision over the requests and the pushes (pkg/cache/dbcache).
use porch.Common.{ℕ, true, false, Option, some, ◌≡◌, refl, arith, ◌==◌, Text}
use porch.Lifecycle.{Lifecycle, is_published}
use porch.Database.{Row, is_unpublished}
use porch.Database.Objects.{
  Stored, Pushed, Calls, pr_needs_push_to_git, push_draft_package_revision, set_last_pushed,
}
use porch.Database.Sent.{unpublished_lifecycle}

pub same_number : (n : ℕ) → (n == n) ≡ true
same_number n = ground arith

unpublished_published : (r : Row) → is_unpublished r ≡ true → is_published r.lifecycle ≡ false
unfolding is_unpublished
unpublished_published r u = unpublished_lifecycle r.lifecycle u

-- Calls that all succeed, with the lock that git gives
abbrev pub succeeding : Text → Calls
succeeding lock = record {
  row_read = true;
  resources_read = true;
  pushed = true;
  lock = some lock;
  row_written = true;
  resources_written = true;
}

module _ {Resources : Type 0} where
  -- A push of a draft that succeeds
  pub pushed_draft :
      (lock : Text) (s : Stored Resources) (git : Option (Pushed Resources))
      → is_unpublished s.row ≡ true
      → pr_needs_push_to_git s.row ≡ true
      → push_draft_package_revision (succeeding lock) s git ≡ (
        record s { row = record s.row { commit = lock; last_pushed = some s.row.updated } },
        some (record { lifecycle = s.row.lifecycle; resources = s.resources }),
      )
  unfolding push_draft_package_revision set_last_pushed
  pushed_draft lock s git u n =
      simp (u, n, same_number s.row.updated, unpublished_published s.row u) refl
