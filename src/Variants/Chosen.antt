-- ===== src/Variants/Chosen.antt =====
-- The revisions that getDownstreamPRs (packagevariant_controller.go) chooses among its targets.
use porch.Common.{
  true, false, ◌≡◌, ◌⊎◌, inl, inr, refl, sym, ap, subst, ◌∙◌, List, [], ◌∷◌, Memᴰ, none, some,
  keep_if, Bool-cases,
}
use porch.Common.Int.{ℤ, negsuc, ℤ_lt, ℤ_lt_trans, ℤ_lt_irrefl}
use porch.Lifecycle.{is_published}
use porch.Variants.{
  Revision, Downstream, Variant, compare_published, visit_all, start, chosen, get_downstream_prs,
}
use porch.Variants.Targets.{Latest, is_unpublished, targets, after_one, after_all, visit_all-Kept}

-- The choice among the targets `ts`.
pub data IsChosen (ts : List Revision) : List Revision → Type 0 where
  all_drafts :
      (pr : Revision) (prs : List Revision)
      → keep_if is_unpublished ts ≡ pr ∷ prs
      → IsChosen ts (pr ∷ prs)
  latest_published :
      (pr : Revision)
      → keep_if is_unpublished ts ≡ []
      → Memᴰ pr ts
      → ((q : Revision) → Memᴰ q ts → ℤ_lt pr.revision q.revision ≡ false)
      → IsChosen ts (pr ∷ [])
  nothing :
      keep_if is_unpublished ts ≡ []
      → ((q : Revision) → Memᴰ q ts → ℤ_lt (negsuc 0) q.revision ≡ false)
      → IsChosen ts []

-- What the published revisions of `ts` make of the latest one so far.
record Raised (ts : List Revision) (before after : Latest) : Type 0 where
  raised : (c : ℤ) → ℤ_lt before.1 c ≡ false → ℤ_lt after.1 c ≡ false
  covers :
      (q : Revision) → Memᴰ q ts → is_published q.lifecycle ≡ true → ℤ_lt after.1 q.revision ≡ false
  held :
      (after ≡ before)
      ⊎ ((pr : Revision) × Memᴰ pr ts × (after.0 ≡ some pr) × (after.1 ≡ pr.revision))

one-Raised : (pr : Revision) (l : Latest) → Raised (pr ∷ []) l (after_one pr l)
unfolding compare_published
one-Raised pr l = elim (Bool-cases (is_published pr.lifecycle)) [
  | inr e ↦
      simp e (record { raised = λ c h. h; covers = λ q m p. unpublished q m p e; held = inl refl })
  | inl e ↦ elim (Bool-cases (ℤ_lt l.1 pr.revision)) [
    | inl b ↦
        simp (e, b)
          (record {
            raised = λ c h. ℤ_lt_trans l.1 pr.revision c b h;
            covers = λ q m p.
                only (λ x. ℤ_lt pr.revision x.revision ≡ false) (ℤ_lt_irrefl pr.revision) q m;
            held = inr (pr, Memᴰ.head refl, refl, refl);
          })
    | inr b ↦
        simp (e, b)
          (record {
            raised = λ c h. h;
            covers = λ q m p. only (λ x. ℤ_lt l.1 x.revision ≡ false) b q m;
            held = inl refl;
          })
  ]
]
  where
    only : (P : Revision → Type 0) → P pr → (q : Revision) → Memᴰ q (pr ∷ []) → P q
    only P h q (Memᴰ.head i) = subst P (sym i) h
    only P h q (Memᴰ.tail m) = elim m [ ]

    unpublished :
        (q : Revision)
        → Memᴰ q (pr ∷ [])
        → is_published q.lifecycle ≡ true
        → is_published pr.lifecycle ≡ false
        → ℤ_lt l.1 q.revision ≡ false
    unpublished q m p e = cc (only (λ x. is_published x.lifecycle ≡ false) e q m, p)

all-Raised : (ts : List Revision) (l : Latest) → Raised ts l (after_all ts l)
all-Raised [] l = record { raised = λ c h. h; covers = λ q m. elim m [ ]; held = inl refl }
all-Raised (t ∷ ts) l =
    let o = one-Raised t l in
    let r = all-Raised ts (after_one t l) in
    record {
      raised = λ c h. r.raised c (o.raised c h);
      covers = λ q m p. elim m [
        | Memᴰ.head i ↦ r.raised q.revision (o.covers q (Memᴰ.head i) p)
        | Memᴰ.tail n ↦ r.covers q n p
      ];
      held = elim r.held [
        | inr (pr, m, e, n) ↦ inr (pr, Memᴰ.tail m, e, n)
        | inl e ↦ elim o.held [
          | inl f ↦ inl (e ∙ f)
          | inr (pr, m, f, n) ↦
              inr (pr, first_of m, ap (λ (b : Latest). b.0) e ∙ f, ap (λ (b : Latest). b.1) e ∙ n)
        ]
      ];
    }
  where
    first_of : {x : Revision} → Memᴰ x (t ∷ []) → Memᴰ x (t ∷ ts)
    first_of (Memᴰ.head i) = Memᴰ.head i
    first_of (Memᴰ.tail m) = elim m [ ]

all_published :
    (ts : List Revision)
    → keep_if is_unpublished ts ≡ []
    → (q : Revision) → Memᴰ q ts
    → is_published q.lifecycle ≡ true
all_published [] h q m = elim m [ ]
all_published (t ∷ ts) h q m = elim (Bool-cases (is_published t.lifecycle)) [
  | inl p ↦ elim m [
    | Memᴰ.head i ↦ ap (λ (x : Revision). is_published x.lifecycle) i ∙ p
    | Memᴰ.tail n ↦ all_published ts (simp p at h) q n
  ]
  | inr p ↦ cc (simp p at h)
]

module _ (pv : Variant) (d : Downstream) where
  choice :
      (ts ds : List Revision) (l : Latest)
      → keep_if is_unpublished ts ≡ ds
      → Raised ts (none, negsuc 0) l
      → IsChosen ts (chosen pv d ds l.0)
  choice ts (p ∷ ps) l e r = all_drafts p ps e
  choice ts [] l e r = elim r.held [
    | inl i ↦ rw i (nothing e (λ q m. rw i at (r.covers q m (all_published ts e q m))))
    | inr (pr, m, f, n) ↦
        rw f (latest_published pr e m (λ q k. rw n at (r.covers q k (all_published ts e q k))))
  ]

  -- Of the revisions of the target package that the variant owns or adopts, the ones that are not
  -- published are returned if there are any; otherwise a published one with the highest revision
  -- number; none only if no number is above -1.
  pub get_downstream_prs-IsChosen :
      (prs : List Revision) → IsChosen (targets pv d prs) (get_downstream_prs pv d prs).0
  unfolding get_downstream_prs
  get_downstream_prs-IsChosen prs =
      let k = visit_all-Kept pv d (start pv d) prs in
      choice (targets pv d prs) (visit_all pv d (start pv d) prs).drafts
        (visit_all pv d (start pv d) prs).latest (sym k.drafts)
        (subst (Raised (targets pv d prs) (none, negsuc 0)) (sym k.latest)
          (all-Raised (targets pv d prs) (none, negsuc 0)))
