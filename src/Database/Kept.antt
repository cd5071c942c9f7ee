-- ===== src/Database/Kept.antt =====
-- The synchronization keeps the revisions that git does not have yet
-- (pkg/cache/dbcache/dbreposync.go).
use porch.Common.{
  Bool, true, false, ◌==◌, ◌≡◌, refl, sym, ap, ◌∙◌, arith, List, [], ◌∷◌, Option, none, some,
  some-injective, if◌then◌else◌, Bool-cases, inl, inr, All,
}
use porch.Key.{PackageRevisionKey}
use porch.Database.{
  Row, Table, External, Conditions, same_row, read_row, delete_row, save_row, is_unpushed,
  delete_fresh, delete_cached_only_pr, pushing, and_then, handle_in_cached_only, is_invalid,
  external_row, cache_external_prs,
}
use porch.Database.Rows.{same_row_swap, same_row_sym, read-delete, read-save}

pub read_row-same :
    (k : PackageRevisionKey) (t : Table) (r : Row) → read_row k t ≡ some r → same_row k r.key ≡ true
unfolding read_row
read_row-same k [] r h = cc
read_row-same k (x ∷ t) r h = elim (Bool-cases (same_row k x.key)) [
  | inl e ↦ rw (← some-injective x r (simp e at h)) e
  | inr e ↦ read_row-same k t r (simp e at h)
]

pub read_row-swap :
    (a b : PackageRevisionKey) (t : Table) → same_row a b ≡ true → read_row a t ≡ read_row b t
unfolding read_row
read_row-swap a b [] h = refl
read_row-swap a b (x ∷ t) h = ground (
  arith,
  read_row-swap a b t h,
  same_row_swap a b x.key h,
  same_row_sym a x.key,
  same_row_sym b x.key,
)

module _ (c : Conditions) where
  pub pushing-inverse :
      (push_drafts : Bool) (x : Row) (o : Option (Table × List Row)) (t : Table) (pushes : List Row)
      → pushing c push_drafts x o ≡ some (t, pushes)
      → (q : List Row) × (o ≡ some (t, q)) × (pushes ≡ (if push_drafts then x ∷ q else q))
  pushing-inverse push_drafts x none t pushes h = cc
  pushing-inverse push_drafts x (some (t1, q)) t pushes h = (q, ground arith, ground arith)

  pub and_then-inverse :
      {A : Type 0} (o : Option Table) (f : Table → Option A) (b : A)
      → and_then c o f ≡ some b
      → (t : Table) × (o ≡ some t) × (f t ≡ some b)
  and_then-inverse none f b h = cc
  and_then-inverse (some t) f b h = (t, refl, h)

module _ (c : Conditions) (k : PackageRevisionKey) (r : Row) (unpushed : is_unpushed r ≡ true) where
  delete-keeps :
      (fresh : Row) (t : Table)
      → read_row k t ≡ some r
      → read_row fresh.key t ≡ some fresh
      → is_unpushed fresh ≡ false
      → read_row k (delete_row fresh.key t) ≡ some r
  delete-keeps fresh t h f u =
      rw (read-delete fresh.key k t) (elim (Bool-cases (same_row fresh.key k)) [
        | inl e ↦
            cc (u, unpushed, some-injective fresh r (sym f ∙ read_row-swap fresh.key k t e ∙ h))
        | inr e ↦ simp e h
      ])

  fresh-keeps :
      (snapshot : Row) (t t' : Table) (o : Option Row)
      → read_row k t ≡ some r
      → read_row snapshot.key t ≡ o
      → delete_fresh c snapshot t o ≡ some t'
      → read_row k t' ≡ some r
  fresh-keeps snapshot t t' none h o e = rw (← some-injective t t' e) h
  fresh-keeps snapshot t t' (some fresh) h o e =
      elim (Bool-cases (fresh.updated == snapshot.updated)) [
        | inl same ↦ elim (Bool-cases (is_unpushed fresh)) [
          | inl u ↦ rw (← some-injective t t' (simp (same, u) at e)) h
          | inr u ↦ elim (Bool-cases (c.package_found fresh.key)) [
            | inl p ↦ elim (Bool-cases (c.delete_fails fresh.key)) [
              | inl d ↦ cc (simp (same, u, p, d) at e)
              | inr d ↦
                  let here =
                    sym (
                      read_row-swap snapshot.key fresh.key t (read_row-same snapshot.key t fresh o))
                    ∙ o in
                  rw (← some-injective (delete_row fresh.key t) t' (simp (same, u, p, d) at e))
                    (delete-keeps fresh t h here u)
            ]
            | inr p ↦ cc (simp (same, u, p) at e)
          ]
        ]
        | inr other ↦ rw (← some-injective t t' (simp other at e)) h
      ]

  pr-keeps :
      (snapshot : Row) (t t' : Table)
      → read_row k t ≡ some r
      → delete_cached_only_pr c snapshot t ≡ some t'
      → read_row k t' ≡ some r
  unfolding delete_cached_only_pr
  pr-keeps snapshot t t' h e = elim (Bool-cases (c.read_fails snapshot.key)) [
    | inl f ↦ cc (simp f at e)
    | inr f ↦ fresh-keeps snapshot t t' (read_row snapshot.key t) h refl (simp f at e)
  ]

  pub cached_only-keeps :
      (push_drafts : Bool) (rs : List Row) (t t' : Table) (pushes : List Row)
      → read_row k t ≡ some r
      → handle_in_cached_only c push_drafts rs t ≡ some (t', pushes)
      → read_row k t' ≡ some r
  unfolding handle_in_cached_only
  cached_only-keeps push_drafts [] t t' pushes h e =
      rw (← ap (λ (p : Table × List Row). p.0) (some-injective (t, []) (t', pushes) e)) h
  cached_only-keeps push_drafts (x ∷ rs) t t' pushes h e = elim (Bool-cases (is_unpushed x)) [
    | inl u ↦
        let (q, f, _) =
          pushing-inverse c push_drafts x (handle_in_cached_only c push_drafts rs t) t' pushes
            (simp u at e) in
        cached_only-keeps push_drafts rs t t' q h f
    | inr u ↦
        let (t1, d, f) =
          and_then-inverse c (delete_cached_only_pr c x t) (handle_in_cached_only c push_drafts rs)
            (t', pushes) (simp u at e) in
        cached_only-keeps push_drafts rs t1 t' pushes (pr-keeps x t t1 h d) f
  ]

  pub external-keeps :
      (es : List External) (t t' : Table)
      → All (λ e. same_row e.key k ≡ false) es
      → read_row k t ≡ some r
      → cache_external_prs c es t ≡ some t'
      → read_row k t' ≡ some r
  unfolding cache_external_prs
  external-keeps [] t t' a h e = rw (← some-injective t t' e) h
  external-keeps (x ∷ es) t t' a h e = elim (Bool-cases x.readable) [
    | inl b ↦ elim (Bool-cases (is_invalid c x)) [
      | inl i ↦ external-keeps es t t' a.1 h (simp (b, i) at e)
      | inr i ↦ elim (Bool-cases (c.save_fails x.key)) [
        | inl f ↦ cc (simp (b, i, f) at e)
        | inr f ↦
            external-keeps es (save_row (external_row c x) t) t' a.1
              (read-save (external_row c x) k t a.0 ∙ h) (simp (b, i, f) at e)
      ]
    ]
    | inr b ↦ cc (simp b at e)
  ]
