-- ===== src/Database/Present.antt =====
-- Tables with one row for a name (pkg/cache/dbcache/dbreposync.go).
use porch.Common.{
  is_some, Bool, true, false, not, ◌≡◌, sym, ap, ◌∙◌, arith, List, [], ◌∷◌, Bool-cases, inl, inr,
  Memᴰ, any-mem,
}
use porch.Lifecycle.{is_published}
use porch.Key.{PackageRevisionKey}
use porch.Database.{
  Row, Table, External, same_row, revision_key_eq, read_row, save_row, cached_only, get_cached,
  has_external,
}
use porch.Database.Rows.{same_row_swap, same_row_sym, preserve-key}
use porch.Database.Keys.{revision_key_eq_refl, kept-mem}

-- No two rows of the table have one name.
abbrev pub IsDistinct : Table → Type 0
IsDistinct t = (r x : Row) → Memᴰ r t → Memᴰ x t → same_row r.key x.key ≡ true → r ≡ x

pub saved-IsSet :
    (r : Row) (k : PackageRevisionKey) (t : Table)
    → same_row r.key k ≡ true
    → is_some (read_row k (save_row r t)) ≡ true
unfolding read_row save_row
saved-IsSet r k [] h = ground (arith, same_row_sym r.key k)
saved-IsSet r k (x ∷ t) h = elim (Bool-cases (same_row r.key x.key)) [
  | inl e ↦ ground (arith, preserve-key r x, same_row_sym r.key k)
  | inr e ↦ ground (
    arith,
    same_row_swap r.key k x.key h,
    same_row_sym k x.key,
    same_row_sym r.key x.key,
    saved-IsSet r k t h,
  )
]

pub get_cached-mem :
    (push_drafts : Bool) (t : Table) (r : Row) → Memᴰ r (get_cached push_drafts t) → Memᴰ r t
unfolding get_cached
get_cached-mem true t r m = m
get_cached-mem false t r m = (kept-mem (λ r. is_published r.lifecycle) r t m).0

-- A row that is only in the table never stands under the name of a row that git has as well.
pub cached_only-apart :
    (cached : Table) (external : List External) (r x : Row) (e : External)
    → IsDistinct cached
    → Memᴰ e external
    → Memᴰ r cached
    → e.key ≡ r.key
    → Memᴰ x (cached_only cached external)
    → same_row x.key e.key ≡ false
unfolding cached_only has_external
cached_only-apart cached external r x e distinct m here same mx =
    elim (Bool-cases (same_row x.key e.key)) [
      | inl s ↦
          let (mem, absent) = kept-mem (λ x. not (has_external x.key external)) x cached mx in
          let eq : x.key ≡ e.key =
            ap (λ (y : Row). y.key) (distinct x r mem here (ap (same_row x.key) (sym same) ∙ s))
            ∙ sym same in
          let found =
            any-mem (λ (e : External). revision_key_eq x.key e.key) external m
              (ap (λ k. revision_key_eq k e.key) eq ∙ revision_key_eq_refl e.key) in
          cc (absent, found)
      | inr s ↦ s
    ]
