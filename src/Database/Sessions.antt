-- ===== src/Database/Sessions.antt =====
-- One package revision while the API server works on it and pushes run in the background
-- (pkg/registry/porch/packagerevision.go, pkg/engine/engine.go, pkg/cache/dbcache), until its row is
-- deleted. An update has the mutex of the package from its fetch on; a DELETE request fetches before it
-- takes the mutex. Each step that changes the row holds the lock of the package.
use porch.Common.{
  ℕ, Bool, true, false, Option, none, List, ◌∷◌, Memᴰ, ◌≡◌, ◌⊎◌, ◌+◌, ◌&&◌, ◌||◌, if◌then◌else◌,
}
use porch.Common.Int.{ℤ}
use porch.Lifecycle.{Lifecycle, proposed, published, lifecycle_eq, is_published}
use porch.Database.Objects.{
  Stored, Object, Pushed, Outcome, Calls, push_draft_package_revision, update_package_revision,
  update_resources, close_package_revision_draft, set_meta,
}
use porch.Database.Publishing.{update_lifecycle}

-- No request, one with a draft that is not saved yet, or one with an object that agrees with the row.
pub data Session (Resources : Type 0) : Type 0 where
  idle : Session Resources
  drafting : Object Resources → Session Resources
  holding : Object Resources → Session Resources

pub record State (Resources : Type 0) : Type 0 where
  pub stored : Stored Resources
  pub git : Option (Pushed Resources)
  pub session : Session Resources
  -- The objects that DELETE requests have fetched
  pub read : List (Object Resources)
  pub clock : ℕ

-- Proposed to Published
abbrev pub is_publication : Lifecycle → Lifecycle → Bool
is_publication old new = lifecycle_eq old proposed && lifecycle_eq new published

module _ {Resources : Type 0} where
  -- An error ends the request.
  abbrev pub after : Outcome Resources → Session Resources
  after r = if r.failed then idle else holding r.object

  abbrev pub fetched : Stored Resources → Object Resources
  fetched s = record { row = s.row; resources = s.resources; resources_dirty = false }

  -- What UpdatePackageRevision of the engine does with the object, and a push; the clock counts the
  -- times that are stored.
  pub data Step (deployment : Bool) (a : State Resources) : State Resources → Type 0 where
    fetch : a.session ≡ idle → Step deployment a (record a { session = holding (fetched a.stored) })
    update :
        (o : Object Resources)
        → a.session ≡ holding o
        → Step deployment a (record a {
          session = drafting (update_package_revision a.clock o a.stored);
          clock = a.clock + 1;
        })
    edit :
        (o : Object Resources) (r : Resources)
        → a.session ≡ drafting o
        → Step deployment a (record a { session = drafting (update_resources r o) })
    move :
        (c : Calls) (latest : Option ℤ) (o : Object Resources) (l : Lifecycle)
        → a.session ≡ drafting o
        → is_publication o.row.lifecycle l ≡ false
        → is_published o.row.lifecycle ≡ false
        → Step deployment a (record a {
          session = drafting (update_lifecycle c latest a.clock l o a.stored a.git).object;
        })
    publish :
        (c : Calls) (latest : Option ℤ) (o : Object Resources) (l : Lifecycle)
        → a.session ≡ drafting o
        → is_publication o.row.lifecycle l ≡ true
        → Step deployment a (
            let r = update_lifecycle c latest a.clock l o a.stored a.git in
            record a { stored = r.stored; git = r.git; session = after r })
    propose_deletion :
        (c : Calls) (latest : Option ℤ) (o : Object Resources) (l : Lifecycle)
        → a.session ≡ holding o
        → is_published o.row.lifecycle ≡ true
        → Step deployment a (
            let r = update_lifecycle c latest a.clock l o a.stored a.git in
            record a { stored = r.stored; git = r.git; session = after r })
    close :
        (c : Calls) (o : Object Resources)
        → a.session ≡ drafting o
        → Step deployment a (
            let r = close_package_revision_draft c deployment a.clock o a.stored a.git in
            record a { stored = r.stored; git = r.git; session = after r; clock = a.clock + 1 })
    close_published :
        (c : Calls) (o : Object Resources)
        → a.session ≡ holding o
        → o.resources_dirty ≡ false
        → Step deployment a (
            let r = close_package_revision_draft c deployment a.clock o a.stored a.git in
            record a { stored = r.stored; git = r.git; session = after r })
    -- Also the first call of an update that takes the last finalizer of an object which is being deleted
    update_meta :
        (c : Calls) (o : Object Resources)
        → a.session ≡ holding o
        → Step deployment a (
            let r = set_meta c o a.stored a.git in
            record a { stored = r.stored; git = r.git; session = after r })
    push :
        (c : Calls)
        → Step deployment a (
            let p = push_draft_package_revision c a.stored a.git in
            record a { stored = p.0; git = p.1 })
    read_object : Step deployment a (record a { read = fetched a.stored ∷ a.read })
    -- DeletePackageRevision of an object with finalizers
    mark :
        (c : Calls) (o : Object Resources)
        → Memᴰ o a.read
        → a.session ≡ idle
        → Step deployment a
            (let r = set_meta c o a.stored a.git in record a { stored = r.stored; git = r.git })
    -- A deletion that git has carried out when the database refuses it, of a DELETE request or of an
    -- update that takes the last finalizer away
    delete_half :
        (push_drafts : Bool) (o : Object Resources)
        → (Memᴰ o a.read × (a.session ≡ idle)) ⊎ (a.session ≡ holding o)
        → is_published o.row.lifecycle || push_drafts ≡ true
        → Step deployment a (record a { git = none; session = idle })
    leave : Step deployment a (record a { session = idle })

  pub data Steps (deployment : Bool) (start : State Resources) : State Resources → Type 0 where
    here : Steps deployment start start
    next :
        {b c : State Resources}
        → Steps deployment start b
        → Step deployment b c
        → Steps deployment start c

  -- A deletion that only marks works on the row as it is, and none has reached git alone.
  abbrev pub IsRegular : {deployment : Bool} {a b : State Resources} → Step deployment a b → Type 0
  IsRegular {a = a} (mark c o m e) = o ≡ fetched a.stored
  IsRegular (delete_half push_drafts o h p) = ¬ Unit
  IsRegular _ = Unit

  abbrev pub AreRegular :
      {deployment : Bool} {a b : State Resources} → Steps deployment a b → Type 0
  AreRegular here = Unit
  AreRegular (next r s) = AreRegular r × IsRegular s
