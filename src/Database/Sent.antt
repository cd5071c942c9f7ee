-- ===== src/Database/Sent.antt =====
-- What a push changes (pkg/cache/dbcache/dbpushtogit.go).
use porch.Common.{
  [], ℕ, true, false, not, ◌&&◌, ◌||◌, Option, none, some, ◌≡◌, ◌⊎◌, refl, sym, ap, ◌∙◌, arith, ◌<◌,
  ◌==◌, Text, Bool-cases, inl, inr,
}
use porch.Lifecycle.{Lifecycle, draft, proposed, lifecycle_eq, is_published}
use porch.Database.{is_unpublished}
use porch.Database.Objects.{
  Stored, Pushed, Calls, pr_needs_push_to_git, push_draft_package_revision, set_last_pushed,
  recorded,
}
use porch.Database.Sessions.{Session, idle, drafting, holding}
use porch.Database.Markers.{IsBelow}
use porch.Database.Saved.{IsOpen, IsValid, contents}

pub unpublished_lifecycle :
    (l : Lifecycle)
    → (lifecycle_eq l draft || lifecycle_eq l proposed) ≡ true
    → is_published l ≡ false
unfolding is_published lifecycle_eq
unpublished_lifecycle l h = ground arith

pub published_other : (l : Lifecycle) → is_published l ≡ true → lifecycle_eq l proposed ≡ false
unfolding is_published lifecycle_eq
published_other l h = ground arith

module _ {Resources : Type 0} where
  -- A push that changed git has put the resources of the row there.
  abbrev pub IsSent :
      Stored Resources
      → Option (Pushed Resources)
      → Stored Resources × Option (Pushed Resources)
      → Type 0
  IsSent s git p =
      (p ≡ (s, git))
      ⊎ ((contents p.1 ≡ some s.resources)
          × ((p.0.resources ≡ s.resources)
              × ((p.0.row.updated ≡ s.row.updated)
                  × ((p.0.row.last_pushed ≡ s.row.last_pushed)
                      ⊎ (p.0.row.last_pushed ≡ some s.row.updated)))))

  pub recorded-IsSent :
      (c : Calls) (lock : Option Text) (s : Stored Resources) (git : Option (Pushed Resources))
      (p : Pushed Resources)
      → p.resources ≡ s.resources
      → IsSent s git (recorded c lock s, some p)
  unfolding set_last_pushed
  recorded-IsSent c none s git p e = inr (ap some e, (refl, (refl, inl refl)))
  recorded-IsSent c (some lock) s git p e = elim (Bool-cases c.row_written) [
    | inr w ↦ simp w (inr (ap some e, (refl, (refl, inl refl))))
    | inl w ↦
        elim (Bool-cases (s.row.updated == s.row.updated && not (is_published s.row.lifecycle))) [
          | inl u ↦ simp (w, u) (inr (ap some e, (refl, (refl, inr refl))))
          | inr u ↦ simp (w, u) (inr (ap some e, (refl, (refl, inl refl))))
        ]
  ]

  pub push-IsSent :
      (c : Calls) (s : Stored Resources) (git : Option (Pushed Resources))
      → IsSent s git (push_draft_package_revision c s git)
  unfolding push_draft_package_revision
  push-IsSent c s git = elim (Bool-cases c.row_read) [
    | inr r ↦ simp r (inl refl)
    | inl r ↦ elim (Bool-cases (is_unpublished s.row)) [
      | inr u ↦ simp (r, u) (inl refl)
      | inl u ↦ elim (Bool-cases (pr_needs_push_to_git s.row)) [
        | inr n ↦ simp (r, u, n) (inl refl)
        | inl n ↦ elim (Bool-cases c.resources_read) [
          | inr m ↦ simp (r, u, n, m) (inl refl)
          | inl m ↦ elim (Bool-cases c.pushed) [
            | inr k ↦ simp (r, u, n, m, k) (inl refl)
            | inl k ↦
                simp (r, u, n, m, k)
                  (recorded-IsSent c c.lock s git
                    (record { lifecycle = s.row.lifecycle; resources = s.resources }) refl)
          ]
        ]
      ]
    ]
  ]

  pub opened :
      (n : ℕ) (s t : Stored Resources) (git h : Option (Pushed Resources))
      (session : Session Resources)
      → contents h ≡ some s.resources
      → t.resources ≡ s.resources
      → t.row.updated ≡ s.row.updated
      → ((m : ℕ) → s.row.updated < m → IsBelow m s.row.last_pushed → IsBelow m t.row.last_pushed)
      → IsOpen n s git session
      → IsOpen n t h session
  opened n s t git h idle e r u f o = tt
  opened n s t git h (drafting d) e r u f o =
      (o.0, (o.1.0, (rw u o.1.1.0, f d.row.updated o.1.1.0 o.1.1.1)))
  opened n s t git h (holding d) e r u f o = (o.0 ∙ sym u, (o.1.0, λ i. e ∙ ap some (sym r)))

  pub last-IsBelow :
      (s t : Stored Resources)
      → (t.row.last_pushed ≡ s.row.last_pushed) ⊎ (t.row.last_pushed ≡ some s.row.updated)
      → (m : ℕ) → s.row.updated < m
      → IsBelow m s.row.last_pushed
      → IsBelow m t.row.last_pushed
  last-IsBelow s t (inl e) m l b = rw e b
  last-IsBelow s t (inr e) m l b = rw e l

  pub pushed-IsValid :
      (n : ℕ) (s : Stored Resources) (git : Option (Pushed Resources)) (session : Session Resources)
      (p : Stored Resources × Option (Pushed Resources))
      → IsSent s git p
      → IsValid (record { stored = s; git = git; session = session; read = []; clock = n })
      → IsValid (record { stored = p.0; git = p.1; session = session; read = []; clock = n })
  pushed-IsValid n s git session p (inl e) v = rw e v
  pushed-IsValid n s git session p (inr (e, (r, (u, l)))) v =
      let below = last-IsBelow s p.0 l in
      (
        (rw u v.0.0, below n v.0.0 v.0.1),
        ((λ i. e ∙ ap some (sym r)), opened n s p.0 git p.1 session e r u below v.1.1),
      )
