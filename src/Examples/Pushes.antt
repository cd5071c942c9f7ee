-- ===== src/Examples/Pushes.antt =====
-- A draft that is edited, pushed and published, and one that is pushed too early.
use porch.Common.{Memᴰ, ◌∷◌, true, false, [], ◌≡◌, refl, Text, codes, some, none, ◌+◌}
use porch.Database.Objects.{
  Object, pr_needs_push_to_git, push_draft_package_revision, update_package_revision,
  update_resources, close_package_revision_draft, set_meta,
}
use porch.Database.Sessions.{
  State, Steps, idle, drafting, holding, after, fetched, fetch, update, edit, close, push, here,
  leave, read_object, mark, next,
}
use porch.Database.Saved.{contents}
use porch.Database.Convergence.{succeeding}
use porch.Database.Overtaken.{overtaken, overtaken-unsynced}
use porch.Database.Stale.{stale-mark-unsynced}
use porch.Examples.Database.{new_draft}

abbrev commit : Text
commit = codes "c7"

abbrev start : State Text
start = record {
  stored = record { row = new_draft; resources = codes "a: 1" };
  git = none;
  session = idle;
  read = [];
  clock = 10;
}

abbrev fetching : State Text
fetching = record start { session = holding (fetched start.stored) }

abbrev opened : State Text
opened = record fetching {
  session = drafting (update_package_revision 10 (fetched start.stored) start.stored);
  clock = 10 + 1;
}

abbrev edited_object : Object Text
edited_object =
    update_resources (codes "a: 2") (update_package_revision 10 (fetched start.stored) start.stored)

abbrev edited : State Text
edited = record opened { session = drafting edited_object }

abbrev closed : State Text
closed =
    let r =
      close_package_revision_draft (succeeding commit) false 11 edited_object edited.stored
        edited.git in
    record edited { stored = r.stored; git = r.git; session = after r; clock = 11 + 1 }

abbrev finished : State Text
finished =
    let p = push_draft_package_revision (succeeding commit) closed.stored closed.git in
    record closed { stored = p.0; git = p.1 }

abbrev saved : Steps false start closed
saved =
    next
      (next (next (next here (fetch refl)) (update (fetched start.stored) refl))
        (edit (update_package_revision 10 (fetched start.stored) start.stored) (codes "a: 2") refl))
      (close (succeeding commit) edited_object refl)

-- A DELETE request finds the row as it has fetched it.
abbrev awaited : State Text
awaited = record finished { session = idle; read = fetched finished.stored ∷ [] }

abbrev ordered : State Text
ordered =
    let m = set_meta (succeeding commit) (fetched finished.stored) finished.stored finished.git in
    record awaited { stored = m.stored; git = m.git }

abbrev run : Steps false start ordered
run =
    next (next (next (next saved (push (succeeding commit))) leave) read_object)
      (mark (succeeding commit) (fetched finished.stored) (Memᴰ.head refl) refl)

overtaken-unsynced_example :
    (contents (overtaken false 3 4 new_draft.key (codes "") (codes "a: 1") commit none).git
      ≡ some (codes ""))
    × ((overtaken false 3 4 new_draft.key (codes "") (codes "a: 1") commit none).stored.resources
        ≡ codes "a: 1")
    × (pr_needs_push_to_git
          (overtaken false 3 4 new_draft.key (codes "") (codes "a: 1") commit none).stored.row
        ≡ false)
overtaken-unsynced_example =
    overtaken-unsynced false 3 4 new_draft.key (codes "") (codes "a: 1") commit none refl

-- The draft once it has been pushed
abbrev settled : State Text
settled = record start {
  stored = record {
    row = record new_draft { last_pushed = some new_draft.updated };
    resources = codes "a: 1";
  };
}

stale-mark-unsynced_example :
    (b : State Text) × Steps true settled b
    × (b.stored.resources ≡ codes "a: 2")
    × (pr_needs_push_to_git b.stored.row ≡ false)
    × (b.git ≡ none)
stale-mark-unsynced_example = stale-mark-unsynced true settled (codes "a: 2") commit refl refl
