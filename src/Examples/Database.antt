-- ===== src/Examples/Database.antt =====
-- A synchronization with an unpushed draft, a stale revision, a changed draft and a new tag.
use porch.Common.{
  is_some, ◌≡◌, ◌↔◌, refl, Text, codes, List, [], ◌∷◌, sym, ◌∙◌, eqb, replace_byte, some, none,
  true, false, ℕ, Memᴰ, Option,
}
use porch.Common.Int.{ℤ, pos}
use porch.Lifecycle.{Lifecycle, lifecycle_eq, is_published, draft, published}
use porch.Key.{PackageRevisionKey, pkg_rev_k8s_name}
use porch.Database.{
  Row, Table, External, Conditions, read_row, sync, is_unpushed, unpushed_git_commit, is_invalid,
  get_cached, cached_only, in_both, external_only, has_external, has_cached, handle_in_cached_only,
  delete_cached_only_pr, delete_row, same_row, cache_external_prs, save_row, preserve_push_markers,
  handle_in_both, is_unpublished, has_been_pushed_to_git, db_content_changed_since_push,
  revision_key_eq, package_key_eq, repository_key_eq,
}
use porch.Names.Objects.{compose_pkg_rev_obj_name, dotted_path}
use porch.Names.Paths.{trim, file_join}
use porch.Database.Sync.{sync-keeps, sync-pushes_iff, is_behind}
use porch.Database.Present.{IsDistinct}
use porch.Database.Expected.{sync-expected, expected_name}

abbrev pub key_of : Text → ℤ → PackageRevisionKey
key_of workspace revision = record {
  pkg_key = record {
    repo_key = record {
      namespace = codes "default";
      name = codes "blueprints";
      path = [];
      placeholder_ws_name = codes "main";
    };
    path = [];
    package_name = codes "basens";
  };
  revision = revision;
  workspace_name = workspace;
}

abbrev pub row : Text → ℤ → Lifecycle → ℕ → Option ℕ → Text → Row
row workspace revision lifecycle updated pushed commit = record {
  key = key_of workspace revision;
  lifecycle = lifecycle;
  updated = updated;
  last_pushed = pushed;
  commit = commit;
}

abbrev pub new_draft : Row
new_draft = row (codes "w1") (pos 0) draft 3 none unpushed_git_commit

abbrev changed_draft : Row
changed_draft = row (codes "w2") (pos 0) draft 5 (some 4) (codes "a1")

abbrev stale : Row
stale = row (codes "v1") (pos 1) published 1 none (codes "b2")

abbrev table : Table
table = new_draft ∷ changed_draft ∷ stale ∷ []

abbrev in_git : Text → ℤ → Lifecycle → External
in_git workspace revision lifecycle = record {
  key = key_of workspace revision;
  lifecycle = lifecycle;
  readable = true;
  commit = codes "c3";
}

abbrev git : List External
git = in_git (codes "w2") (pos 0) draft ∷ in_git (codes "v2") (pos 2) published ∷ []

abbrev conditions : Conditions
conditions = record {
  read_fails = λ k. false;
  package_found = λ k. true;
  delete_fails = λ k. false;
  save_fails = λ k. false;
  now = 9;
}

abbrev synced : Table
synced = new_draft ∷ changed_draft ∷ row (codes "v2") (pos 2) published 9 none (codes "c3") ∷ []

run : sync conditions true git table ≡ some (synced, new_draft ∷ changed_draft ∷ [])
unfolding sync get_cached cached_only in_both external_only has_external has_cached
    handle_in_cached_only delete_cached_only_pr read_row delete_row same_row cache_external_prs
    is_invalid save_row preserve_push_markers handle_in_both is_unpushed is_unpublished
    has_been_pushed_to_git db_content_changed_since_push revision_key_eq package_key_eq
    repository_key_eq pkg_rev_k8s_name eqb lifecycle_eq compose_pkg_rev_obj_name dotted_path trim
    replace_byte file_join is_published
run = refl

sync-keeps_example : read_row new_draft.key synced ≡ some new_draft
unfolding sync get_cached cached_only in_both external_only has_external has_cached
    handle_in_cached_only delete_cached_only_pr read_row delete_row same_row cache_external_prs
    is_invalid save_row preserve_push_markers handle_in_both is_unpushed is_unpublished
    has_been_pushed_to_git db_content_changed_since_push revision_key_eq package_key_eq
    repository_key_eq pkg_rev_k8s_name eqb lifecycle_eq compose_pkg_rev_obj_name dotted_path trim
    replace_byte file_join is_published
sync-keeps_example =
    sync-keeps conditions true git table synced (new_draft ∷ changed_draft ∷ []) new_draft refl refl
      (refl, (refl, tt)) run

sync-pushes_iff_example :
    Memᴰ changed_draft (new_draft ∷ changed_draft ∷ [])
    ↔ Memᴰ changed_draft table × (is_behind git changed_draft ≡ true)
sync-pushes_iff_example =
    sync-pushes_iff conditions git table synced (new_draft ∷ changed_draft ∷ []) changed_draft run

table-IsDistinct : IsDistinct (changed_draft ∷ [])
table-IsDistinct r x (Memᴰ.head e) (Memᴰ.head f) h = e ∙ sym f
table-IsDistinct r x (Memᴰ.tail m) n h = elim m [ ]
table-IsDistinct r x (Memᴰ.head e) (Memᴰ.tail n) h = elim n [ ]

small_run :
    sync conditions true git (changed_draft ∷ [])
    ≡ some (
      changed_draft ∷ row (codes "v2") (pos 2) published 9 none (codes "c3") ∷ [],
      changed_draft ∷ [],
    )
unfolding sync get_cached cached_only in_both external_only has_external has_cached
    handle_in_cached_only delete_cached_only_pr read_row delete_row same_row cache_external_prs
    is_invalid save_row preserve_push_markers handle_in_both is_unpushed is_unpublished
    has_been_pushed_to_git db_content_changed_since_push revision_key_eq package_key_eq
    repository_key_eq pkg_rev_k8s_name eqb lifecycle_eq compose_pkg_rev_obj_name dotted_path trim
    replace_byte file_join is_published
small_run = refl

sync-expected_example :
    is_some (
      read_row
        (key_of (codes "v2") (pos 2))
        (changed_draft ∷ row (codes "v2") (pos 2) published 9 none (codes "c3") ∷ []))
    ≡ expected_name conditions true git (changed_draft ∷ []) (key_of (codes "v2") (pos 2))
sync-expected_example =
    sync-expected conditions true git (changed_draft ∷ [])
      (changed_draft ∷ row (codes "v2") (pos 2) published 9 none (codes "c3") ∷ [])
      (changed_draft ∷ []) (key_of (codes "v2") (pos 2)) table-IsDistinct small_run
