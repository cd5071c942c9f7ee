-- ===== src/Registry/Histories.antt =====
-- What holds of a package revision over a sequence of accepted requests (pkg/registry/porch).
use porch.Common.{
  Bool, true, false, ◌≡◌, ◌⊎◌, inl, inr, refl, sym, ◌∙◌, arith, List, [], ◌∷◌, some, ap, Bool-cases,
}
use porch.Lifecycle.{Lifecycle, draft, proposed, published, is_published, lifecycle_eq}
use porch.Names.Objects.{Dns}
use porch.Registry.Strategy.{
  Revision, Spec, FieldError, canonicalize, prepare_for_update, is_unpublished, validate_update,
}
use porch.Registry.Approval.{validate_approval}
use porch.Registry.Update.{
  admitted, checked, revision_strategy, approval_strategy, validate_request,
}
use porch.Registry.Transitions.{
  Approves, approve, reject, propose_deletion, keep, validate_approval_iff, validate_update_iff,
}

module _ {Metadata Rest : Type 0} (deep_equal : Spec Metadata Rest → Spec Metadata Rest → Bool)
    (deep_lifecycle : (a b : Spec Metadata Rest)
      → deep_equal a b ≡ true
      → a.lifecycle ≡ b.lifecycle)
    (dns : Dns) (create_hook : Revision Metadata Rest → Bool)
    (update_hook : Revision Metadata Rest → Revision Metadata Rest → Bool) where
  -- One accepted request on an existing object: an update or an approval.
  pub data Step (old r : Revision Metadata Rest) : Type 0 where
    by_update :
        (new : Revision Metadata Rest)
        → validate_request (revision_strategy deep_equal dns) create_hook update_hook new (some old)
          ≡ admitted r
        → Step old r
    by_approval :
        (new : Revision Metadata Rest)
        → validate_request approval_strategy create_hook update_hook new (some old) ≡ admitted r
        → Step old r

  -- A sequence of accepted requests.
  pub data History (s : Revision Metadata Rest) : Revision Metadata Rest → Type 0 where
    here : History s s
    next : {t u : Revision Metadata Rest} → History s t → Step t u → History s u

  checked-admitted :
      (es : List FieldError) (x r : Revision Metadata Rest)
      → checked es x ≡ admitted r
      → (es ≡ []) × (x ≡ r)
  checked-admitted [] x r h = ground arith
  checked-admitted (e ∷ es) x r h = cc

  update-admitted :
      (old new r : Revision Metadata Rest)
      → validate_request (revision_strategy deep_equal dns) create_hook update_hook new (some old)
        ≡ admitted r
      → (validate_update deep_equal (prepare_for_update new old) old ≡ [])
        × (canonicalize (prepare_for_update new old) ≡ r)
  unfolding validate_request revision_strategy
  update-admitted old new r h = elim (Bool-cases (update_hook (prepare_for_update new old) old)) [
    | inl e ↦ checked-admitted _ _ r (rw e at h)
    | inr e ↦ cc (rw e at h)
  ]

  approval-admitted :
      (old new r : Revision Metadata Rest)
      → validate_request approval_strategy create_hook update_hook new (some old) ≡ admitted r
      → (validate_approval new old ≡ []) × (new ≡ r)
  unfolding validate_request approval_strategy
  approval-admitted old new r h = elim (Bool-cases (update_hook new old)) [
    | inl e ↦ checked-admitted _ _ r (rw e at h)
    | inr e ↦ cc (rw e at h)
  ]

  is_published-canonicalize :
      (x : Revision Metadata Rest)
      → is_published (canonicalize x).spec.lifecycle ≡ is_published x.spec.lifecycle
  unfolding canonicalize is_published lifecycle_eq
  is_published-canonicalize x = ground arith

  published_or_not : (l : Lifecycle) → is_unpublished l ≡ true → is_published l ≡ false
  unfolding is_published lifecycle_eq
  published_or_not l h = ground arith

  -- Whether a revision is published changes only by an approval.
  update_kind :
      (old new r : Revision Metadata Rest)
      → validate_request (revision_strategy deep_equal dns) create_hook update_hook new (some old)
        ≡ admitted r
      → is_published r.spec.lifecycle ≡ is_published old.spec.lifecycle
  update_kind old new r h =
      let (errors, canonical) = update-admitted old new r h in
      let x = prepare_for_update new old in
      ap (λ (y : Revision Metadata Rest). is_published y.spec.lifecycle) (sym canonical)
      ∙ is_published-canonicalize x
      ∙ elim ((validate_update_iff deep_equal deep_lifecycle x old).0 errors).1 [
        | inl u ↦
            published_or_not x.spec.lifecycle u.1 ∙ sym (published_or_not old.spec.lifecycle u.0)
        | inr p ↦ p.1 ∙ sym p.0
      ]

  approval_kind :
      {a b : Lifecycle}
      → Approves a b
      → (is_published a ≡ true) × (is_published b ≡ true)
        ⊎ (a ≡ proposed) × ((b ≡ published) ⊎ (b ≡ draft))
  unfolding is_published lifecycle_eq
  approval_kind approve = inr (refl, inl refl)
  approval_kind reject = inr (refl, inr refl)
  approval_kind propose_deletion = inl (refl, refl)
  approval_kind keep = inl (refl, refl)

  Step-published :
      {old r : Revision Metadata Rest}
      → Step old r
      → is_published old.spec.lifecycle ≡ true
      → is_published r.spec.lifecycle ≡ true
  unfolding is_published lifecycle_eq
  Step-published {old} {r} (by_update new h) p = update_kind old new r h ∙ p
  Step-published {old} {r} (by_approval new h) p =
      let (errors, e) = approval-admitted old new r h in
      elim (approval_kind ((validate_approval_iff new old).0 errors)) [
        | inl q ↦ ap (λ (y : Revision Metadata Rest). is_published y.spec.lifecycle) (sym e) ∙ q.1
        | inr q ↦ cc (q.0, p)
      ]

  -- From a published revision, every revision that accepted updates and approvals lead to is
  -- published too (or proposed for deletion). (Equal specs have equal lifecycles.)
  pub History-published :
      {s t : Revision Metadata Rest}
      → History s t
      → is_published s.spec.lifecycle ≡ true
      → is_published t.spec.lifecycle ≡ true
  History-published here p = p
  History-published (next r st) p = Step-published st (History-published r p)

  Step-publishes :
      {old r : Revision Metadata Rest}
      → Step old r
      → is_published old.spec.lifecycle ≡ false
      → is_published r.spec.lifecycle ≡ true
      → (old.spec.lifecycle ≡ proposed) × (r.spec.lifecycle ≡ published)
  unfolding is_published lifecycle_eq
  Step-publishes {old} {r} (by_update new h) n p = cc (update_kind old new r h, n, p)
  Step-publishes {old} {r} (by_approval new h) n p =
      let (errors, e) = approval-admitted old new r h in
      let lifecycles = ap (λ (y : Revision Metadata Rest). y.spec.lifecycle) e in
      elim (approval_kind ((validate_approval_iff new old).0 errors)) [
        | inl q ↦ cc (q.0, n)
        | inr q ↦ elim q.1 [
          | inl b ↦ (q.0, sym lifecycles ∙ b)
          | inr b ↦ cc (ap is_published (sym lifecycles ∙ b), p)
        ]
      ]

  -- A published revision that was not published before went through an accepted change from
  -- Proposed to Published.
  pub record Publication (s t : Revision Metadata Rest) : Type 0 where
    pub before : Revision Metadata Rest
    pub after : Revision Metadata Rest
    pub up_to : History s before
    pub was_proposed : before.spec.lifecycle ≡ proposed
    pub publishing : Step before after
    pub is_now_published : after.spec.lifecycle ≡ published
    pub onward : History after t

  -- Where accepted updates and approvals lead from a revision that is not published to one that is,
  -- one of them was made on a Proposed revision and turned it to Published. (Equal specs have equal
  -- lifecycles.)
  pub History-Publication :
      {s t : Revision Metadata Rest}
      → History s t
      → is_published s.spec.lifecycle ≡ false
      → is_published t.spec.lifecycle ≡ true
      → Publication s t
  History-Publication here n p = cc (n, p)
  History-Publication (next {t} {u} r st) n p = elim (Bool-cases (is_published t.spec.lifecycle)) [
    | inl e ↦
        let q = History-Publication r n e in
        record {
          before = q.before;
          after = q.after;
          up_to = q.up_to;
          was_proposed = q.was_proposed;
          publishing = q.publishing;
          is_now_published = q.is_now_published;
          onward = next q.onward st;
        }
    | inr e ↦
        let (was, now) = Step-publishes st e p in
        record {
          before = t;
          after = u;
          up_to = r;
          was_proposed = was;
          publishing = st;
          is_now_published = now;
          onward = here;
        }
  ]
