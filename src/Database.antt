-- ===== src/Database.antt =====
-- pkg/cache/dbcache/dbreposync.go and util.go: how the database cache is brought in line with the git
-- repository.
pub mod Rows
pub mod Keys
pub mod Kept
pub mod Sync
pub mod Present
pub mod Exact
pub mod Expected
pub mod Objects
pub mod Publishing
pub mod Sessions
pub mod Markers
pub mod Saved
pub mod Synced
pub mod Sent
pub mod Convergence
pub mod Overtaken
pub mod Stale
use porch.Common.{
  is_some, ℕ, Bool, true, false, not, ◌&&◌, ◌||◌, Text, List, [], ◌∷◌, ◌++◌, map, Option, none,
  some, if◌then◌else◌, ◌==◌, eqb, codes, is_empty, any, keep_if, length,
}
use porch.Common.Int.{ℤ, pos, ℤ_eq}
use porch.Lifecycle.{
  Lifecycle, draft, proposed, published, deletion_proposed, lifecycle_eq, is_published,
}
use porch.Key.{PackageRevisionKey, PackageKey, RepositoryKey, pkg_rev_k8s_name}

-- a == b on keys, as map keys
unfoldable pub repository_key_eq : RepositoryKey → RepositoryKey → Bool
repository_key_eq a b =
    eqb a.namespace b.namespace
    && (eqb a.name b.name && (eqb a.path b.path && eqb a.placeholder_ws_name b.placeholder_ws_name))

unfoldable pub package_key_eq : PackageKey → PackageKey → Bool
package_key_eq a b =
    repository_key_eq a.repo_key b.repo_key
    && (eqb a.path b.path && eqb a.package_name b.package_name)

unfoldable pub revision_key_eq : PackageRevisionKey → PackageRevisionKey → Bool
revision_key_eq a b =
    package_key_eq a.pkg_key b.pkg_key
    && (ℤ_eq a.revision b.revision && eqb a.workspace_name b.workspace_name)

-- The fields of dbPackageRevision that the synchronization reads; times are numbers, and `commit` is
-- that of the lock, "" if the lock has no git part.
pub record Row : Type 0 where
  pub key : PackageRevisionKey
  pub lifecycle : Lifecycle
  pub updated : ℕ
  pub last_pushed : Option ℕ
  pub commit : Text

abbrev pub Table : Type 0
Table = List Row

-- A row stands under the namespace and the object name of its key.
unfoldable pub same_row : PackageRevisionKey → PackageRevisionKey → Bool
same_row a b =
    eqb a.pkg_key.repo_key.namespace b.pkg_key.repo_key.namespace
    && eqb (pkg_rev_k8s_name a) (pkg_rev_k8s_name b)

-- pkgRevReadFromDB
unfoldable pub read_row : PackageRevisionKey → Table → Option Row
read_row k [] = none
read_row k (r ∷ t) = if same_row k r.key then some r else read_row k t

-- pkgRevDeleteFromDB
unfoldable pub delete_row : PackageRevisionKey → Table → Table
delete_row k = keep_if (λ r. not (same_row k r.key))

abbrev pub unpushed_git_commit : Text
unpushed_git_commit = codes "not-pushed"

-- hasBeenPushedToGit
unfoldable pub has_been_pushed_to_git : Row → Bool
has_been_pushed_to_git r =
    is_some r.last_pushed || (not (is_empty r.commit) && not (eqb r.commit unpushed_git_commit))

-- dbContentChangedSincePush
abbrev pub pushed_before : ℕ → Option ℕ → Bool
pushed_before updated none = true
pushed_before updated (some t) = not (updated == t)

unfoldable pub db_content_changed_since_push : Row → Bool
db_content_changed_since_push r = pushed_before r.updated r.last_pushed

-- A draft or a proposed revision that git does not have yet
unfoldable pub is_unpublished : Row → Bool
is_unpublished r = lifecycle_eq r.lifecycle draft || lifecycle_eq r.lifecycle proposed

unfoldable pub is_unpushed : Row → Bool
is_unpushed r = is_unpublished r && not (has_been_pushed_to_git r)

-- preservePushMarkersIfUnset
abbrev pub preserved_markers : Row → Row → Option ℕ → Option ℕ → Row
preserved_markers r existing none (some t) = record r {
  last_pushed = some t;
  commit = if eqb r.commit unpushed_git_commit then existing.commit else r.commit;
}
preserved_markers r existing _ _ = r

unfoldable pub preserve_push_markers : Row → Row → Row
preserve_push_markers r existing = preserved_markers r existing r.last_pushed existing.last_pushed

-- savePackageRevision: update the row that is there, or write a new one
unfoldable pub save_row : Row → Table → Table
save_row r [] = r ∷ []
save_row r (x ∷ t) =
    let rest = save_row r t in
    if same_row r.key x.key then preserve_push_markers r x ∷ t else x ∷ rest

-- A package revision of the git repository; `readable` says that its API object and its resources
-- can be read, and `commit` is that of its lock.
pub record External : Type 0 where
  pub key : PackageRevisionKey
  pub lifecycle : Lifecycle
  pub readable : Bool
  pub commit : Text

-- A key of the external map
unfoldable pub has_external : PackageRevisionKey → List External → Bool
has_external k = any (λ e. revision_key_eq k e.key)

unfoldable pub has_cached : PackageRevisionKey → Table → Bool
has_cached k = any (λ r. revision_key_eq k r.key)

-- comparePRMaps, with the entries for the keys
unfoldable pub cached_only : Table → List External → Table
cached_only cached external = keep_if (λ r. not (has_external r.key external)) cached

unfoldable pub in_both : Table → List External → Table
in_both cached external = keep_if (λ r. has_external r.key external) cached

unfoldable pub external_only : Table → List External → List External
external_only cached external = keep_if (λ e. not (has_cached e.key cached)) external

-- Where the database fails, and the clock.
pub record Conditions : Type 0 where
  pub read_fails : PackageRevisionKey → Bool
  pub package_found : PackageRevisionKey → Bool
  pub delete_fails : PackageRevisionKey → Bool
  pub save_fails : PackageRevisionKey → Bool
  pub now : ℕ

-- getCachedPRMap on the rows of the repository; without drafts in git only the published ones
unfoldable pub get_cached : Bool → Table → Table
get_cached push_drafts table =
    if push_drafts then table else keep_if (λ r. is_published r.lifecycle) table

module _ (c : Conditions) where
  -- deleteCachedOnlyPR behind its read of the row; `none` is an error
  abbrev pub delete_fresh : Row → Table → Option Row → Option Table
  delete_fresh snapshot table none = some table
  delete_fresh snapshot table (some fresh) =
      if not (fresh.updated == snapshot.updated)
      then some table
      else if is_unpushed fresh
      then some table
      else if not (c.package_found fresh.key)
      then none
      else if c.delete_fails fresh.key
      then none
      else some (delete_row fresh.key table)

  unfoldable pub delete_cached_only_pr : Row → Table → Option Table
  delete_cached_only_pr snapshot table =
      if c.read_fails snapshot.key
      then none
      else delete_fresh snapshot table (read_row snapshot.key table)

  -- The loop of handleInCachedOnly: the table, and the revisions to push
  abbrev pub pushing : Bool → Row → Option (Table × List Row) → Option (Table × List Row)
  pushing push_drafts r none = none
  pushing push_drafts r (some (table, pushes)) =
      some (table, if push_drafts then r ∷ pushes else pushes)

  abbrev pub and_then {ℓ} : {A : Type ℓ} → Option Table → (Table → Option A) → Option A
  and_then none f = none
  and_then (some t) f = f t

  unfoldable pub handle_in_cached_only : Bool → List Row → Table → Option (Table × List Row)
  handle_in_cached_only push_drafts [] table = some (table, [])
  handle_in_cached_only push_drafts (r ∷ rs) table =
      let kept = pushing push_drafts r (handle_in_cached_only push_drafts rs table) in
      let deleted =
        and_then (delete_cached_only_pr r table) (λ t. handle_in_cached_only push_drafts rs t) in
      if is_unpushed r then kept else deleted

  -- Revision 0 is not that of a published revision.
  unfoldable pub is_invalid : External → Bool
  is_invalid e = ℤ_eq e.key.revision (pos 0) && is_published e.lifecycle

  abbrev pub external_row : External → Row
  external_row e = record {
    key = e.key;
    lifecycle = e.lifecycle;
    updated = c.now;
    last_pushed = none;
    commit = e.commit;
  }

  -- The loop of cacheExternalPRs
  unfoldable pub cache_external_prs : List External → Table → Option Table
  cache_external_prs [] table = some table
  cache_external_prs (e ∷ es) table =
      let skipped = cache_external_prs es table in
      let saved = cache_external_prs es (save_row (external_row e) table) in
      if not e.readable
      then none
      else if is_invalid e
      then skipped
      else if c.save_fails e.key
      then none
      else saved

  -- handleInBoth: the revisions to push
  unfoldable pub handle_in_both : List Row → List Row
  handle_in_both = keep_if (λ r. is_unpublished r && db_content_changed_since_push r)

  abbrev pub cached_then :
      Bool → Table → List External → Option (Table × List Row) → Option (Table × List Row)
  cached_then push_drafts cached external none = none
  cached_then push_drafts cached external (some (table, pushes)) =
      and_then (cache_external_prs (external_only cached external) table) (λ t.
        some (t, pushes ++ (if push_drafts then handle_in_both (in_both cached external) else [])))

  -- repositorySync.sync, once the two maps are read: the table, and the revisions to push
  unfoldable pub sync : Bool → List External → Table → Option (Table × List Row)
  sync push_drafts external table =
      let cached = get_cached push_drafts table in
      cached_then push_drafts cached external
        (handle_in_cached_only push_drafts (cached_only cached external) table)
