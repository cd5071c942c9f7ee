-- ===== src/Database/Exact.antt =====
-- Which rows the table has after a synchronization (pkg/cache/dbcache/dbreposync.go).
use porch.Common.{
  is_some, Bool, false, not, ◌&&◌, ◌||◌, ◌≡◌, ◌⊎◌, refl, sym, ap, ◌∙◌, arith, List, [], ◌∷◌, Option,
  none, some, some-injective, if◌then◌else◌, Bool-cases, Option-cases, inl, inr, All, Memᴰ, any,
  All-mem,
}
use porch.Key.{PackageRevisionKey}
use porch.Database.{
  Row, Table, External, Conditions, same_row, read_row, delete_row, save_row, is_unpushed,
  delete_fresh, delete_cached_only_pr, handle_in_cached_only, is_invalid, external_row,
  cache_external_prs, external_only, cached_only, get_cached, sync, has_external,
}
use porch.Database.Rows.{read-delete, read-save}
use porch.Database.Keys.{kept-mem, read_row-mem}
use porch.Database.Convergence.{same_number}
use porch.Database.Kept.{read_row-swap, pushing-inverse, and_then-inverse, read_row-same}
use porch.Database.Sync.{cached_then-inverse}
use porch.Database.Present.{IsDistinct, get_cached-mem, saved-IsSet}

-- A row under the name is gone, or is the row that the list of the cache has.
abbrev IsKnown : Row → Table → Type 0
IsKnown x t = (read_row x.key t ≡ none) ⊎ (read_row x.key t ≡ some x)

module _ (c : Conditions) (k : PackageRevisionKey) where
  found-deleted :
      (x : Row) (t t' : Table)
      → is_unpushed x ≡ false
      → delete_fresh c x t (some x) ≡ some t'
      → read_row k t' ≡ (if same_row x.key k then none else read_row k t)
  found-deleted x t t' u e = elim (Bool-cases (c.package_found x.key)) [
    | inr p ↦ cc (simp (same_number x.updated, u, p) at e)
    | inl p ↦ elim (Bool-cases (c.delete_fails x.key)) [
      | inl d ↦ cc (simp (same_number x.updated, u, p, d) at e)
      | inr d ↦
          ap (read_row k) (
            sym
              (some-injective (delete_row x.key t) t' (simp (same_number x.updated, u, p, d) at e)))
          ∙ read-delete x.key k t
    ]
  ]

  fresh-deleted :
      (x : Row) (t t' : Table) (o : Option Row)
      → (o ≡ none) ⊎ (o ≡ some x)
      → read_row x.key t ≡ o
      → is_unpushed x ≡ false
      → delete_fresh c x t o ≡ some t'
      → read_row k t' ≡ (if same_row x.key k then none else read_row k t)
  fresh-deleted x t t' none known r u e = elim (Bool-cases (same_row x.key k)) [
    | inl s ↦
        simp s (ap (read_row k) (sym (some-injective t t' e)) ∙ sym (read_row-swap x.key k t s) ∙ r)
    | inr s ↦ simp s (ap (read_row k) (sym (some-injective t t' e)))
  ]
  fresh-deleted x t t' (some y) (inl h) r u e = cc
  fresh-deleted x t t' (some y) (inr h) r u e =
      found-deleted x t t' u (ap (delete_fresh c x t) (sym h) ∙ e)

  pr-deleted :
      (x : Row) (t t' : Table)
      → IsKnown x t
      → is_unpushed x ≡ false
      → delete_cached_only_pr c x t ≡ some t'
      → read_row k t' ≡ (if same_row x.key k then none else read_row k t)
  unfolding delete_cached_only_pr
  pr-deleted x t t' known u e = elim (Bool-cases (c.read_fails x.key)) [
    | inl f ↦ cc (simp f at e)
    | inr f ↦ fresh-deleted x t t' (read_row x.key t) known refl u (simp f at e)
  ]

-- A row that the handler removes
abbrev pub is_removed : PackageRevisionKey → Row → Bool
is_removed k x = not (is_unpushed x) && same_row x.key k

deleted-IsKnown :
    (c : Conditions) (x y : Row) (t t' : Table)
    → IsKnown x t
    → is_unpushed x ≡ false
    → delete_cached_only_pr c x t ≡ some t'
    → IsKnown y t
    → IsKnown y t'
deleted-IsKnown c x y t t' known u e h =
    let read = pr-deleted c y.key x t t' known u e in
    elim (Bool-cases (same_row x.key y.key)) [
      | inl s ↦ inl (simp s at read)
      | inr s ↦ rw (simp s at read) h
    ]

All-IsKnown :
    (c : Conditions) (x : Row) (rs : List Row) (t t' : Table)
    → IsKnown x t
    → is_unpushed x ≡ false
    → delete_cached_only_pr c x t ≡ some t'
    → All (λ y. IsKnown y t) rs
    → All (λ y. IsKnown y t') rs
All-IsKnown c x [] t t' known u e a = tt
All-IsKnown c x (y ∷ rs) t t' known u e a =
    (deleted-IsKnown c x y t t' known u e a.0, All-IsKnown c x rs t t' known u e a.1)

module _ (c : Conditions) (k : PackageRevisionKey) where
  cached_only-deleted :
      (push_drafts : Bool) (rs : List Row) (t t' : Table) (pushes : List Row)
      → All (λ y. IsKnown y t) rs
      → handle_in_cached_only c push_drafts rs t ≡ some (t', pushes)
      → read_row k t' ≡ (if any (is_removed k) rs then none else read_row k t)
  unfolding handle_in_cached_only
  cached_only-deleted push_drafts [] t t' pushes a e =
      ap (λ (p : Table × List Row). read_row k p.0) (sym (some-injective (t, []) (t', pushes) e))
  cached_only-deleted push_drafts (x ∷ rs) t t' pushes a e = elim (Bool-cases (is_unpushed x)) [
    | inl u ↦
        let (q, f, _) =
          pushing-inverse c push_drafts x (handle_in_cached_only c push_drafts rs t) t' pushes
            (simp u at e) in
        simp u (cached_only-deleted push_drafts rs t t' q a.1 f)
    | inr u ↦
        let (t1, d, f) =
          and_then-inverse c (delete_cached_only_pr c x t) (handle_in_cached_only c push_drafts rs)
            (t', pushes) (simp u at e) in
        let later =
          cached_only-deleted push_drafts rs t1 t' pushes (All-IsKnown c x rs t t1 a.0 u d a.1) f in
        let now = pr-deleted c k x t t1 a.0 u d in ground (arith, later, now)
  ]

  save-exact :
      (r : Row) (t : Table)
      → is_some (read_row k (save_row r t)) ≡ (same_row r.key k || is_some (read_row k t))
  save-exact r t = elim (Bool-cases (same_row r.key k)) [
    | inl s ↦ simp s (saved-IsSet r k t s)
    | inr s ↦ simp s (ap is_some (read-save r k t s))
  ]

  external-exact :
      (es : List External) (t t' : Table)
      → cache_external_prs c es t ≡ some t'
      → is_some (read_row k t')
        ≡ (any (λ e. not (is_invalid c e) && same_row e.key k) es || is_some (read_row k t))
  unfolding cache_external_prs
  external-exact [] t t' h = ap (λ u. is_some (read_row k u)) (sym (some-injective t t' h))
  external-exact (x ∷ es) t t' h = ground (
    arith,
    external-exact es t t',
    external-exact es (save_row (external_row c x) t) t',
    save-exact (external_row c x) t,
  )

pub cached_only-mem :
    (cached : Table) (external : List External) (x : Row)
    → Memᴰ x (cached_only cached external)
    → Memᴰ x cached
unfolding cached_only
cached_only-mem cached external x m =
    (kept-mem (λ r. not (has_external r.key external)) x cached m).0

distinct-IsKnown : (t : Table) (x : Row) → IsDistinct t → Memᴰ x t → IsKnown x t
distinct-IsKnown t x d m = elim (Option-cases (read_row x.key t)) [
  | inl e ↦ inl e
  | inr (y, e) ↦
      inr (e ∙ ap some (sym (d x y m (read_row-mem x.key y t e) (read_row-same x.key t y e))))
]

pub sync-read :
    (c : Conditions) (push_drafts : Bool) (external : List External) (t t' : Table)
    (pushes : List Row) (k : PackageRevisionKey)
    → IsDistinct t
    → sync c push_drafts external t ≡ some (t', pushes)
    → is_some (read_row k t') ≡ (
        any
          (λ e. not (is_invalid c e) && same_row e.key k)
          (external_only (get_cached push_drafts t) external)
        || (not (any (is_removed k) (cached_only (get_cached push_drafts t) external))
            && is_some (read_row k t)))
unfolding sync
sync-read c push_drafts external t t' pushes k d h =
    let cached = get_cached push_drafts t in
    let (t1, q, f, saved, _) = cached_then-inverse c push_drafts cached external _ t' pushes h in
    let known =
      All-mem (λ y. IsKnown y t) (cached_only cached external)
        (λ x m.
          distinct-IsKnown t x d
            (get_cached-mem push_drafts t x (cached_only-mem cached external x m))) in
    let read = cached_only-deleted c k push_drafts (cached_only cached external) t t1 q known f in
    ground (arith, external-exact c k (external_only cached external) t1 t' saved, read)
