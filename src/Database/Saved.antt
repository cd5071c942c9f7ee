-- ===== src/Database/Saved.antt =====
-- The saving of rows and their markers (pkg/cache/dbcache/dbpackagerevision.go).
use porch.Common.{
  ℕ, Bool, true, false, not, Option, none, some, ◌≡◌, refl, sym, ap, ◌∙◌, arith, ◌+◌, ◌<◌,
  Bool-cases, inl, inr, if◌then◌else◌,
}
use porch.Database.{Row, pushed_before, preserve_push_markers}
use porch.Database.Objects.{
  Stored, Object, Pushed, Outcome, Calls, pr_needs_push_to_git, update_db, preserved, stamped,
  save_package_revision, close_package_revision_draft, set_meta,
}
use porch.Database.Sessions.{Session, idle, drafting, holding, State}
use porch.Database.Markers.{
  IsBelow, IsStamped, below-needs, IsBelow-mono, preserve-updated, preserve-last, later-IsStamped,
}

module _ {Resources : Type 0} where
  abbrev pub contents : Option (Pushed Resources) → Option Resources
  contents none = none
  contents (some p) = some p.resources

  -- A row that needs no push has its resources in git.
  abbrev pub IsSynced : Row → Resources → Option (Pushed Resources) → Type 0
  IsSynced row resources git = pr_needs_push_to_git row ≡ false → contents git ≡ some resources

  abbrev pub IsOpen : ℕ → Stored Resources → Option (Pushed Resources) → Session Resources → Type 0
  IsOpen n s git idle = Unit
  IsOpen n s git (drafting o) =
      (o.row.updated < n)
      × (IsBelow o.row.updated o.row.last_pushed × IsStamped o.row.updated s.row)
  IsOpen n s git (holding o) =
      (o.row.updated ≡ s.row.updated)
      × (IsBelow n o.row.last_pushed × IsSynced o.row s.resources git)

  abbrev pub IsValid : State Resources → Type 0
  IsValid a =
      IsStamped a.clock a.stored.row
      × (IsSynced a.stored.row a.stored.resources a.git × IsOpen a.clock a.stored a.git a.session)

  -- The row after an operation, and the object if it succeeded.
  abbrev pub IsFine : ℕ → Outcome Resources → Type 0
  IsFine n r =
      IsStamped n r.stored.row
      × (IsSynced r.stored.row r.stored.resources r.git
          × (r.failed ≡ false → IsOpen n r.stored r.git (holding r.object)))

  pub update_db-IsFine :
      (c : Calls) (save_resources : Bool) (o : Object Resources) (s : Stored Resources)
      (git : Option (Pushed Resources)) (n : ℕ)
      → IsStamped n s.row
      → IsSynced s.row s.resources git
      → IsStamped n o.row
      → IsSynced o.row s.resources git
      → (save_resources ≡ true → pr_needs_push_to_git o.row ≡ true)
      → IsFine n (update_db c save_resources o s git)
  update_db-IsFine c save_resources o s git n a b d e f = elim (Bool-cases c.row_written) [
    | inr w ↦ simp w (a, (b, λ h. cc))
    | inl w ↦ elim (Bool-cases save_resources) [
      | inr v ↦ simp (w, v) (d, (e, λ h. (refl, (d.1, e))))
      | inl v ↦ elim (Bool-cases c.resources_written) [
        | inr u ↦ simp (w, v, u) (d, (e, λ h. cc))
        | inl u ↦ simp (w, v, u) (d, ((λ h. cc (f v, h)), λ h. (refl, (d.1, (λ i. cc (f v, i))))))
      ]
    ]
  ]

  pub preserve-IsSynced :
      (o : Object Resources) (s : Stored Resources) (git : Option (Pushed Resources))
      → o.row.updated ≡ s.row.updated
      → IsSynced o.row s.resources git
      → IsSynced s.row s.resources git
      → IsSynced (preserve_push_markers o.row s.row) s.resources git
  unfolding pr_needs_push_to_git
  preserve-IsSynced o s git e a b =
      preserve-last
        (λ p.
          pushed_before (preserve_push_markers o.row s.row).updated p ≡ false
          → contents git ≡ some s.resources)
        o.row s.row
        (λ h.
          a (ap (λ u. pushed_before u o.row.last_pushed) (sym (preserve-updated o.row s.row)) ∙ h))
        (λ h. b (
          ap (λ u. pushed_before u s.row.last_pushed) (sym (preserve-updated o.row s.row ∙ e)) ∙ h))

  pub preserve-IsStamped :
      (o : Object Resources) (s : Stored Resources) (n : ℕ)
      → o.row.updated ≡ s.row.updated
      → IsBelow n o.row.last_pushed
      → IsStamped n s.row
      → IsStamped n (preserve_push_markers o.row s.row)
  preserve-IsStamped o s n e a b =
      (rw (preserve-updated o.row s.row, e) b.0, preserve-last (IsBelow n) o.row s.row a b.1)

  -- Saving an object that agrees with the row, without resources
  pub held_save-IsFine :
      (c : Calls) (o : Object Resources) (s : Stored Resources) (git : Option (Pushed Resources))
      (n : ℕ)
      → IsStamped n s.row
      → IsSynced s.row s.resources git
      → IsOpen n s git (holding o)
      → IsFine n (update_db c false (preserved o s) s git)
  held_save-IsFine c o s git n a b h =
      update_db-IsFine c false (preserved o s) s git n a b (preserve-IsStamped o s n h.0 h.1.0 a)
        (preserve-IsSynced o s git h.0 h.1.1 b) (λ f. cc)

  pub failed-IsFine :
      (o : Object Resources) (s : Stored Resources) (git : Option (Pushed Resources)) (n : ℕ)
      → IsStamped n s.row
      → IsSynced s.row s.resources git
      → IsFine n (record { object = o; stored = s; git = git; failed = true })
  failed-IsFine o s git n a b = (a, (b, λ h. cc))

  pub set_meta-IsFine :
      (c : Calls) (o : Object Resources) (s : Stored Resources) (git : Option (Pushed Resources))
      (n : ℕ)
      → IsStamped n s.row
      → IsSynced s.row s.resources git
      → IsOpen n s git (holding o)
      → IsFine n (set_meta c o s git)
  unfolding set_meta
  set_meta-IsFine c o s git n a b h = elim (Bool-cases c.row_read) [
    | inl r ↦ simp r (held_save-IsFine c o s git n a b h)
    | inr r ↦ simp r (failed-IsFine o s git n a b)
  ]

  pub held-IsFine :
      (c : Calls) (deployment : Bool) (now : ℕ) (o : Object Resources) (s : Stored Resources)
      (git : Option (Pushed Resources)) (n : ℕ)
      → IsStamped n s.row
      → IsSynced s.row s.resources git
      → IsOpen n s git (holding o)
      → IsFine n (save_package_revision c deployment now false o s git)
  unfolding save_package_revision
  held-IsFine c deployment now o s git n a b h = elim (Bool-cases c.row_read) [
    | inl r ↦ simp r (held_save-IsFine c o s git n a b h)
    | inr r ↦ simp r (failed-IsFine o s git n a b)
  ]

  -- The saving of an object whose time is later than all others
  pub dated-IsFine :
      (c : Calls) (save_resources : Bool) (o : Object Resources) (s : Stored Resources)
      (git : Option (Pushed Resources)) (n : ℕ)
      → IsStamped n s.row
      → IsSynced s.row s.resources git
      → IsOpen n s git (drafting o)
      → IsFine n (update_db c save_resources (preserved o s) s git)
  dated-IsFine c save_resources o s git n a b h =
      let below : IsBelow o.row.updated (preserve_push_markers o.row s.row).last_pushed =
        preserve-last (IsBelow o.row.updated) o.row s.row h.1.0 h.1.1.1 in
      let needs =
        below-needs (preserve_push_markers o.row s.row) (rw (preserve-updated o.row s.row) below) in
      update_db-IsFine c save_resources (preserved o s) s git n a b
        (
          rw (preserve-updated o.row s.row) h.0,
          IsBelow-mono o.row.updated n (preserve_push_markers o.row s.row).last_pushed (omega arith)
              below,
        )
        (λ i. cc (needs, i)) (λ f. needs)

  pub stamped_save-IsFine :
      (c : Calls) (save_resources : Bool) (o : Object Resources) (s : Stored Resources)
      (git : Option (Pushed Resources)) (n : ℕ)
      → IsStamped n s.row
      → IsSynced s.row s.resources git
      → IsOpen n s git (drafting o)
      → IsFine n (
          if not c.row_read
          then record { object = o; stored = s; git = git; failed = true }
          else update_db c save_resources (preserved o s) s git)
  stamped_save-IsFine c save_resources o s git n a b h = elim (Bool-cases c.row_read) [
    | inl r ↦ simp r (dated-IsFine c save_resources o s git n a b h)
    | inr r ↦ simp r (failed-IsFine o s git n a b)
  ]

  pub stamped-IsOpen :
      (deployment : Bool) (now : ℕ) (save_resources : Bool) (o : Object Resources)
      (s : Stored Resources) (git : Option (Pushed Resources))
      → IsStamped now s.row
      → IsOpen now s git (drafting o)
      → IsOpen (now + 1) s git (drafting (stamped deployment now save_resources o))
  stamped-IsOpen true now true o s git a h =
      (omega arith, (IsBelow-mono o.row.updated now o.row.last_pushed (omega arith) h.1.0, a))
  stamped-IsOpen true now false o s git a h = (omega arith, h.1)
  stamped-IsOpen false now true o s git a h = (omega arith, h.1)
  stamped-IsOpen false now false o s git a h = (omega arith, h.1)

  -- The saving of a draft
  pub close-IsFine :
      (c : Calls) (deployment : Bool) (now : ℕ) (o : Object Resources) (s : Stored Resources)
      (git : Option (Pushed Resources))
      → IsStamped now s.row
      → IsSynced s.row s.resources git
      → IsOpen now s git (drafting o)
      → IsFine (now + 1) (close_package_revision_draft c deployment now o s git)
  unfolding close_package_revision_draft save_package_revision
  close-IsFine c deployment now o s git a b h =
      stamped_save-IsFine c o.resources_dirty (stamped deployment now o.resources_dirty o) s git
        (now + 1) (later-IsStamped now (now + 1) s.row (omega arith) a) b
        (stamped-IsOpen deployment now o.resources_dirty o s git a h)
