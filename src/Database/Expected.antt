-- ===== src/Database/Expected.antt =====
-- The names in the table after a synchronization, against their description
-- (pkg/cache/dbcache/dbreposync.go).
use porch.Common.{
  is_some, Bool, true, false, not, ◌&&◌, ◌||◌, ◌≡◌, refl, sym, ap, ◌∙◌, arith, List, some,
  Bool-cases, Option-cases, inl, inr, Memᴰ, any, any-find, any-mem,
}
use porch.Lifecycle.{is_published}
use porch.Key.{PackageRevisionKey}
use porch.Database.{
  Row, Table, External, Conditions, same_row, revision_key_eq, read_row, is_unpushed, is_invalid,
  external_only, cached_only, get_cached, sync, has_cached, has_external,
}
use porch.Database.Rows.{same_row_swap, same_row_sym}
use porch.Database.Keys.{revision_key_eq→eq, read_row-IsSet, keep_if-mem, kept-mem, read_row-mem}
use porch.Database.Kept.{read_row-same}
use porch.Database.Present.{IsDistinct, get_cached-mem, cached_only-apart}
use porch.Database.Exact.{is_removed, sync-read, cached_only-mem}

-- What keeps a row in the table: it is not among those that are compared with git, or git has its key,
-- or it is a draft or a proposed revision that has never been pushed.
unfoldable pub stays : Bool → List External → Row → Bool
stays push_drafts external r =
    not (push_drafts || is_published r.lifecycle) || (has_external r.key external || is_unpushed r)

-- The names that the table has after a synchronization
unfoldable pub expected_name : Conditions → Bool → List External → Table → PackageRevisionKey → Bool
expected_name c push_drafts external t k =
    any (λ e. not (is_invalid c e) && same_row e.key k) external
    || any (λ r. stays push_drafts external r && same_row r.key k) t

same_row_join :
    (a b k : PackageRevisionKey) → same_row a k ≡ true → same_row b k ≡ true → same_row a b ≡ true
same_row_join a b k h i = ground (arith, same_row_swap b k a i)

equal_tests : (a b : Bool) → (a ≡ true → b ≡ true) → (b ≡ true → a ≡ true) → a ≡ b
equal_tests true b f g = sym (f refl)
equal_tests false true f g = g refl
equal_tests false false f g = refl

listed :
    (push_drafts : Bool) (t : Table) (r : Row)
    → Memᴰ r (get_cached push_drafts t)
    → (push_drafts || is_published r.lifecycle) ≡ true
unfolding get_cached
listed true t r m = refl
listed false t r m = (kept-mem (λ r. is_published r.lifecycle) r t m).1

listed-mem :
    (push_drafts : Bool) (t : Table) (r : Row)
    → (push_drafts || is_published r.lifecycle) ≡ true
    → Memᴰ r t
    → Memᴰ r (get_cached push_drafts t)
unfolding get_cached
listed-mem true t r h m = m
listed-mem false t r h m = keep_if-mem (λ r. is_published r.lifecycle) r t m h

cached_only-absent :
    (cached : Table) (external : List External) (x : Row)
    → Memᴰ x (cached_only cached external)
    → has_external x.key external ≡ false
unfolding cached_only
cached_only-absent cached external x m =
    let h = (kept-mem (λ r. not (has_external r.key external)) x cached m).1 in ground arith

module _ (c : Conditions) (push_drafts : Bool) (external : List External) (t : Table)
    (k : PackageRevisionKey) (distinct : IsDistinct t) where
  abbrev valid : External → Bool
  valid e = not (is_invalid c e) && same_row e.key k

  abbrev remaining : Row → Bool
  remaining r = stays push_drafts external r && same_row r.key k

  abbrev removes : Bool
  removes = any (is_removed k) (cached_only (get_cached push_drafts t) external)

  get_cached-IsDistinct : IsDistinct (get_cached push_drafts t)
  get_cached-IsDistinct a b ma mb =
      distinct a b (get_cached-mem push_drafts t a ma) (get_cached-mem push_drafts t b mb)

  -- A row that stays is not removed, nor is one of git.
  remaining-kept : (r : Row) → Memᴰ r t → remaining r ≡ true → removes ≡ false
  unfolding stays
  remaining-kept r m h = elim (Bool-cases removes) [
    | inr n ↦ n
    | inl y ↦
        let (x, mx, rx) =
          any-find (is_removed k) (cached_only (get_cached push_drafts t) external) y in
        let mc = cached_only-mem (get_cached push_drafts t) external x mx in
        let same =
          distinct x r (get_cached-mem push_drafts t x mc) m
            (same_row_join x.key r.key k (ground arith) (ground arith)) in
        ground (
          arith,
          ap (stays push_drafts external) same,
          listed push_drafts t x mc,
          cached_only-absent (get_cached push_drafts t) external x mx,
        )
  ]

  external-kept :
      (e : External) (r : Row)
      → Memᴰ e external
      → same_row e.key k ≡ true
      → Memᴰ r (get_cached push_drafts t)
      → e.key ≡ r.key
      → removes ≡ false
  external-kept e r m s mr q = elim (Bool-cases removes) [
    | inr n ↦ n
    | inl y ↦
        let (x, mx, rx) =
          any-find (is_removed k) (cached_only (get_cached push_drafts t) external) y in
        let apart =
          cached_only-apart (get_cached push_drafts t) external r x e get_cached-IsDistinct m mr q
            mx in
        cc (apart, same_row_join x.key e.key k (ground arith) s)
  ]

  found_row : (r : Row) → Memᴰ r t → same_row r.key k ≡ true → is_some (read_row k t) ≡ true
  found_row r m s = read_row-IsSet k r t m (same_row_sym k r.key ∙ s)

  abbrev result : Bool
  result =
      any valid (external_only (get_cached push_drafts t) external)
      || (not removes && is_some (read_row k t))

  kept-expected : not removes ≡ true → is_some (read_row k t) ≡ true → any remaining t ≡ true
  unfolding stays cached_only
  kept-expected n s = elim (Option-cases (read_row k t)) [
    | inl e ↦ cc (s, ap is_some e)
    | inr (r, e) ↦
        let m = read_row-mem k r t e in
        let name : same_row r.key k ≡ true = same_row_sym r.key k ∙ read_row-same k t r e in
        elim (Bool-cases (remaining r)) [
          | inl y ↦ any-mem remaining t m y
          | inr y ↦
              let mc = listed-mem push_drafts t r (ground arith) m in
              let kept =
                keep_if-mem (λ r. not (has_external r.key external)) r (get_cached push_drafts t) mc
                  (ground arith) in
              let removed =
                any-mem (is_removed k) (cached_only (get_cached push_drafts t) external) kept
                  (ground arith) in
              cc (n, removed)
        ]
  ]

  result-expected : result ≡ true → expected_name c push_drafts external t k ≡ true
  unfolding expected_name external_only
  result-expected h =
      elim (Bool-cases (any valid (external_only (get_cached push_drafts t) external))) [
        | inl a ↦
            let (e, m, v) = any-find valid (external_only (get_cached push_drafts t) external) a in
            let all =
              any-mem valid external
                (kept-mem (λ e. not (has_cached e.key (get_cached push_drafts t))) e external m).0
                v in
            ground arith
        | inr a ↦ let r = kept-expected (ground arith) (ground arith) in ground arith
      ]

  expected-result : expected_name c push_drafts external t k ≡ true → result ≡ true
  unfolding expected_name external_only has_cached
  expected-result h = elim (Bool-cases (any valid external)) [
    | inl a ↦
        let (e, m, v) = any-find valid external a in
        elim (Bool-cases (has_cached e.key (get_cached push_drafts t))) [
          | inr n ↦
              let new =
                any-mem valid (external_only (get_cached push_drafts t) external)
                  (keep_if-mem (λ e. not (has_cached e.key (get_cached push_drafts t))) e external m
                    (ap not n))
                  v in
              ground arith
          | inl y ↦
              let (r, mr, q) =
                any-find (λ (r : Row). revision_key_eq e.key r.key) (get_cached push_drafts t) y in
              let eq = revision_key_eq→eq e.key r.key q in
              let kept = external-kept e r m (ground arith) mr eq in
              let found =
                found_row r (get_cached-mem push_drafts t r mr)
                  (ap (λ j. same_row j k) (sym eq) ∙ ground arith) in
              ground arith
        ]
    | inr a ↦
        let (r, m, s) = any-find remaining t (ground arith) in
        let kept = remaining-kept r m s in let found = found_row r m (ground arith) in ground arith
  ]

-- After a synchronization that succeeds on a table in which no two rows have one name, the table has a
-- row under a name exactly if git has a revision under it, other than a published one with the
-- number 0, or a row under it stays: one that is not listed, or whose key git has, or a draft or a
-- proposed revision that has never been pushed.
pub sync-expected :
    (c : Conditions) (push_drafts : Bool) (external : List External) (t t' : Table)
    (pushes : List Row) (k : PackageRevisionKey)
    → IsDistinct t
    → sync c push_drafts external t ≡ some (t', pushes)
    → is_some (read_row k t') ≡ expected_name c push_drafts external t k
sync-expected c push_drafts external t t' pushes k d h =
    sync-read c push_drafts external t t' pushes k d h
    ∙ equal_tests (result c push_drafts external t k d) (expected_name c push_drafts external t k)
        (result-expected c push_drafts external t k d)
        (expected-result c push_drafts external t k d)
