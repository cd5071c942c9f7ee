-- ===== src/Controller/Latest.antt =====
-- Which revision updateLatestRevisionLabels takes for the latest one (labels.go).
use porch.Common.{
  true, false, not, ◌&&◌, ◌≡◌, ◌⊎◌, inl, inr, refl, sym, subst, ◌∙◌, arith, List, [], ◌∷◌, Memᴰ,
  Bool-cases,
}
use porch.Common.Int.{ℤ, pos, ℤ_eq, ℤ_lt, ℤ_eq_iff, ℤ_lt_trans, ℤ_lt_irrefl}
use porch.Lifecycle.{is_published}
use porch.PackageRevision.{PackageRevision}
use porch.Controller.Labels.{Best, no_best, in_hand, seen_revision, consider, consider_all, latest}

-- A published revision that is not being deleted.
abbrev pub Counts : PackageRevision → Type 0
Counts rev = (rev.deleting ≡ false) × (is_published rev.spec.lifecycle ≡ true)

-- The revision number in `best` is that of a counted revision of the list, with its name.
pub record IsHeldBy (pr rev : PackageRevision) (best : Best) : Type 0 where
  pub counts : Counts rev
  pub is_number : seen_revision pr rev ≡ best.0
  pub is_name : rev.name ≡ best.1

-- No counted revision of `revs` has a higher number than `best`, and `best` is the number and the name
-- of one of them, or there is none with a number above 0.
pub record IsLatest (pr : PackageRevision) (revs : List PackageRevision) (best : Best)
    : Type 0 where
  pub highest :
      {rev : PackageRevision}
      → Memᴰ rev revs
      → Counts rev
      → ℤ_lt best.0 (seen_revision pr rev) ≡ false
  pub is_held : (best ≡ no_best) ⊎ ((rev : PackageRevision) × Memᴰ rev revs × IsHeldBy pr rev best)

-- What `new` is not below, `old` is not below either.
Raises : Best → Best → Type 0
Raises old new = (c : ℤ) → ℤ_lt old.0 c ≡ false → ℤ_lt new.0 c ≡ false

abbrev IsNatural : Best → Type 0
IsNatural best = ℤ_lt best.0 (pos 0) ≡ false

-- What one round of the loop does.
record Considered (pr rev : PackageRevision) (old new : Best) : Type 0 where
  raised : Raises old new
  covers : Counts rev → ℤ_lt new.0 (seen_revision pr rev) ≡ false
  held : (new ≡ old) ⊎ IsHeldBy pr rev new

raised-covers :
    (pr rev : PackageRevision) (old : Best)
    → Counts rev
    → ℤ_lt old.0 (seen_revision pr rev) ≡ true
    → Considered pr rev old (seen_revision pr rev, rev.name)
unfolding Raises
raised-covers pr rev old n l = record {
  raised = λ c h. ℤ_lt_trans old.0 (seen_revision pr rev) c l h;
  covers = λ m. ℤ_lt_irrefl (seen_revision pr rev);
  held = inr (record { counts = n; is_number = refl; is_name = refl });
}

consider-Considered :
    (pr rev : PackageRevision) (old : Best)
    → IsNatural old
    → Considered pr rev old (consider pr old rev)
unfolding consider Raises
consider-Considered pr rev old n = elim (Bool-cases rev.deleting) [
  | inl d ↦ simp d (kept (λ m. cc (m.0, d)))
  | inr d ↦ elim (Bool-cases (is_published rev.spec.lifecycle)) [
    | inr p ↦ simp (d, p) (kept (λ m. cc (m.1, p)))
    | inl p ↦ elim (Bool-cases (ℤ_eq (seen_revision pr rev) (pos 0))) [
      | inl z ↦ simp (d, p, z) (kept (λ m. simp ((ℤ_eq_iff (seen_revision pr rev) (pos 0)).0 z) n))
      | inr z ↦ elim (Bool-cases (ℤ_lt old.0 (seen_revision pr rev))) [
        | inl l ↦ simp (d, p, z, l) (raised-covers pr rev old (d, p) l)
        | inr l ↦ simp (d, p, z, l) (kept (λ m. l))
      ]
    ]
  ]
]
  where
    kept : (Counts rev → ℤ_lt old.0 (seen_revision pr rev) ≡ false) → Considered pr rev old old
    kept h = record { raised = λ c q. q; covers = h; held = inl refl }

seen_own : (pr : PackageRevision) → seen_revision pr pr ≡ pr.status.revision
unfolding seen_revision
seen_own pr = ground arith

in_hand-Considered : (pr : PackageRevision) → Considered pr pr no_best (in_hand pr)
unfolding in_hand Raises
in_hand-Considered pr =
    elim (Bool-cases
      (not pr.deleting && (is_published pr.spec.lifecycle && ℤ_lt (pos 0) pr.status.revision))) [
        | inl e ↦ simp e (record {
          raised = λ c h. above pr.status.revision c (ground arith) h;
          covers = λ m. rw (seen_own pr) (ℤ_lt_irrefl pr.status.revision);
          held = inr (record { counts = ground arith; is_number = seen_own pr; is_name = refl });
        })
        | inr e ↦ simp e (record {
          raised = λ c h. h;
          covers = λ m. rw (seen_own pr) (ground arith);
          held = inl refl;
        })
      ]
  where
    above : (a c : ℤ) → ℤ_lt (pos 0) a ≡ true → ℤ_lt (pos 0) c ≡ false → ℤ_lt a c ≡ false
    above a c = ℤ_lt_trans (pos 0) a c

record ConsideredAll (pr : PackageRevision) (revs : List PackageRevision) (old new : Best)
    : Type 0 where
  raised : Raises old new
  covers :
      {rev : PackageRevision}
      → Memᴰ rev revs
      → Counts rev
      → ℤ_lt new.0 (seen_revision pr rev) ≡ false
  held : (new ≡ old) ⊎ ((rev : PackageRevision) × Memᴰ rev revs × IsHeldBy pr rev new)

behind-ConsideredAll :
    {pr rev : PackageRevision} {revs : List PackageRevision} {old mid new : Best}
    → Considered pr rev old mid
    → ConsideredAll pr revs mid new
    → ConsideredAll pr (rev ∷ revs) old new
unfolding Raises
behind-ConsideredAll {pr} {rev} {revs} {old} {mid} {new} c d = record {
  raised = λ b h. d.raised b (c.raised b h);
  covers = at;
  held = elim d.held [
    | inr (q, m, h) ↦ inr (q, Memᴰ.tail m, h)
    | inl e ↦ elim c.held [
      | inl f ↦ inl (e ∙ f)
      | inr h ↦ inr (rev, Memᴰ.head refl, subst (IsHeldBy pr rev) (sym e) h)
    ]
  ];
}
  where
    at :
        {q : PackageRevision}
        → Memᴰ q (rev ∷ revs)
        → Counts q
        → ℤ_lt new.0 (seen_revision pr q) ≡ false
    at {q} (Memᴰ.head e) n =
        subst (λ x. Counts x → ℤ_lt new.0 (seen_revision pr x) ≡ false) (sym e)
          (λ m. d.raised (seen_revision pr rev) (c.covers m)) n
    at {q} (Memᴰ.tail m) n = d.covers m n

consider_all-ConsideredAll :
    (pr : PackageRevision) (old : Best) (revs : List PackageRevision)
    → IsNatural old
    → ConsideredAll pr revs old (consider_all pr old revs)
unfolding consider_all Raises
consider_all-ConsideredAll pr old [] n = record {
  raised = λ c h. h;
  covers = λ m. elim m [ ];
  held = inl refl;
}
consider_all-ConsideredAll pr old (rev ∷ revs) n =
    let c = consider-Considered pr rev old n in
    behind-ConsideredAll c
      (consider_all-ConsideredAll pr (consider pr old rev) revs (c.raised (pos 0) n))

-- The revision that is taken for the latest one, among the listed revisions and the one in hand, is a
-- published one that is not being deleted, with the highest number of these; the one in hand counts
-- with its own number if that is higher than the listed one. There is none only if no such
-- revision has a number above 0.
pub latest-IsLatest :
    (pr : PackageRevision) (revs : List PackageRevision) → IsLatest pr (pr ∷ revs) (latest pr revs)
unfolding latest Raises
latest-IsLatest pr revs =
    let c = in_hand-Considered pr in
    let d =
      behind-ConsideredAll c
        (consider_all-ConsideredAll pr (in_hand pr) revs (c.raised (pos 0) refl)) in
    record { highest = d.covers; is_held = d.held }
