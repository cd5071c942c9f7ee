-- ===== src/Database/Sync.antt =====
-- What one synchronization of the database with git does (pkg/cache/dbcache/dbreposync.go).
use porch.Common.{
  Bool, true, false, not, ◌&&◌, ◌≡◌, ◌↔◌, refl, sym, ap, ◌∙◌, arith, List, [], ◌∷◌, ◌++◌, Option,
  none, some, some-injective, if◌then◌else◌, Bool-cases, inl, inr, keep_if, Memᴰ,
}
use porch.Database.{
  Row, Table, External, Conditions, same_row, read_row, is_unpushed, is_unpublished,
  has_been_pushed_to_git, db_content_changed_since_push, delete_cached_only_pr,
  handle_in_cached_only, cache_external_prs, external_only, cached_only, get_cached, cached_then,
  sync, has_cached, has_external, handle_in_both, in_both,
}
use mathlib.Core.List.Memᴰ.{append_left, append_right, append_cases}
use porch.Database.Keys.{IsAbsent, All-keep_if, keep_if-mem, kept-mem}
use porch.Database.Kept.{cached_only-keeps, external-keeps, pushing-inverse, and_then-inverse}

-- The revisions that the synchronization pushes: drafts and proposed revisions that git has in an older
-- state, or not at all and never had.
unfoldable pub is_behind : List External → Row → Bool
is_behind external r =
    is_unpublished r
    && (if has_external r.key external
        then db_content_changed_since_push r
        else not (has_been_pushed_to_git r))

abbrev queues : List External → Table → List Row
queues external t =
    keep_if is_unpushed (cached_only t external)
    ++ keep_if (λ r. is_unpublished r && db_content_changed_since_push r) (in_both t external)

queues-IsBehind :
    (external : List External) (r : Row) (t : Table)
    → Memᴰ r (queues external t)
    → Memᴰ r t × (is_behind external r ≡ true)
unfolding is_behind is_unpushed cached_only in_both
queues-IsBehind external r t m =
    elim (append_cases (keep_if is_unpushed (cached_only t external)) m) [
      | inl a ↦
          let (b, u) = kept-mem is_unpushed r (cached_only t external) a in
          let (d, e) = kept-mem (λ r. not (has_external r.key external)) r t b in (d, ground arith)
      | inr a ↦
          let (b, u) =
            kept-mem (λ r. is_unpublished r && db_content_changed_since_push r) r
              (in_both t external) a in
          let (d, e) = kept-mem (λ r. has_external r.key external) r t b in (d, ground arith)
    ]

behind-queues :
    (external : List External) (r : Row) (t : Table)
    → Memᴰ r t
    → is_behind external r ≡ true
    → Memᴰ r (queues external t)
unfolding is_behind is_unpushed cached_only in_both
behind-queues external r t m b = elim (Bool-cases (has_external r.key external)) [
  | inl e ↦ append_right (keep_if is_unpushed (cached_only t external)) (
      keep_if-mem (λ r. is_unpublished r && db_content_changed_since_push r) r (in_both t external)
        (keep_if-mem (λ r. has_external r.key external) r t m e) (ground arith))
  | inr e ↦
      append_left
        (keep_if (λ r. is_unpublished r && db_content_changed_since_push r) (in_both t external))
        (keep_if-mem is_unpushed r (cached_only t external)
          (keep_if-mem (λ r. not (has_external r.key external)) r t m (ap not e)) (ground arith))
]

module _ (c : Conditions) where
  pub cached_then-inverse :
      (push_drafts : Bool) (cached : Table) (external : List External)
      (o : Option (Table × List Row)) (t : Table) (pushes : List Row)
      → cached_then c push_drafts cached external o ≡ some (t, pushes)
      → (t1 : Table) × (q : List Row) × (o ≡ some (t1, q))
        × (cache_external_prs c (external_only cached external) t1 ≡ some t)
        × (pushes ≡ q ++ (if push_drafts then handle_in_both c (in_both cached external) else []))
  cached_then-inverse push_drafts cached external none t pushes h = cc
  cached_then-inverse push_drafts cached external (some (t1, q)) t pushes h =
      let (u, e, f) =
        and_then-inverse c (cache_external_prs c (external_only cached external) t1) _ (t, pushes)
          h in
      let same = some-injective _ _ f in
      (
        t1,
        q,
        refl,
        e ∙ ap some (ap (λ (p : Table × List Row). p.0) same),
        sym (ap (λ (p : Table × List Row). p.1) same),
      )

  cached_only-pushes :
      (push_drafts : Bool) (rs : List Row) (t t' : Table) (pushes : List Row)
      → handle_in_cached_only c push_drafts rs t ≡ some (t', pushes)
      → pushes ≡ (if push_drafts then keep_if is_unpushed rs else [])
  unfolding handle_in_cached_only
  cached_only-pushes push_drafts [] t t' pushes h =
      ground (arith, some-injective (t, []) (t', pushes) h)
  cached_only-pushes push_drafts (x ∷ rs) t t' pushes h = elim (Bool-cases (is_unpushed x)) [
    | inl u ↦
        let (q, f, e) =
          pushing-inverse c push_drafts x (handle_in_cached_only c push_drafts rs t) t' pushes
            (simp u at h) in
        simp u (ground (arith, e, cached_only-pushes push_drafts rs t t' q f))
    | inr u ↦
        let (t1, d, f) =
          and_then-inverse c (delete_cached_only_pr c x t) (handle_in_cached_only c push_drafts rs)
            (t', pushes) (simp u at h) in
        simp u (cached_only-pushes push_drafts rs t1 t' pushes f)
  ]

  -- If the synchronization succeeds, then a draft or a proposed revision that has not been pushed to
  -- git yet is in the table afterwards as it was before, if git has no revision under its name.
  pub sync-keeps :
      (push_drafts : Bool) (external : List External) (t t' : Table) (pushes : List Row) (r : Row)
      → read_row r.key t ≡ some r
      → is_unpushed r ≡ true
      → IsAbsent r.key external
      → sync c push_drafts external t ≡ some (t', pushes)
      → read_row r.key t' ≡ some r
  unfolding sync external_only
  sync-keeps push_drafts external t t' pushes r here unpushed absent h =
      let cached = get_cached push_drafts t in
      let (t1, q, f, saved, _) = cached_then-inverse push_drafts cached external _ t' pushes h in
      external-keeps c r.key r unpushed (external_only cached external) t1 t'
        (All-keep_if (λ e. same_row e.key r.key ≡ false) (λ e. not (has_cached e.key cached))
          external absent)
        (cached_only-keeps c r.key r unpushed push_drafts (cached_only cached external) t t1 q here
          f)
        saved

  -- With drafts in git, the revisions that a successful synchronization pushes are the drafts and the
  -- proposed revisions of the table that have changed since their last push, if git has their key, or
  -- have never been pushed, if git does not have it.
  pub sync-pushes_iff :
      (external : List External) (t t' : Table) (pushes : List Row) (r : Row)
      → sync c true external t ≡ some (t', pushes)
      → Memᴰ r pushes ↔ Memᴰ r t × (is_behind external r ≡ true)
  unfolding sync handle_in_both get_cached
  sync-pushes_iff external t t' pushes r h =
      let (t1, q, f, _, e) = cached_then-inverse true t external _ t' pushes h in
      let same : pushes ≡ queues external t =
        e
        ∙ ap (λ q. q ++ handle_in_both c (in_both t external))
            (cached_only-pushes true (cached_only t external) t t1 q f) in
      (
        λ m. queues-IsBehind external r t (simp same at m),
        λ m. simp same (behind-queues external r t m.0 m.1),
      )
