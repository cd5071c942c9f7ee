-- ===== src/Names/Compose.antt =====
-- The composed names of objects (api/util/util.go) as dots between elements, and how the functions
-- that take names apart read them.
use mathlib.Core.List.{append_assoc}
use porch.Common.{
  ℕ, Bool, true, false, ◌≡◌, ◌⊎◌, inl, inr, refl, ap, sym, ◌∙◌, arith, Text, List, [], ◌∷◌, ◌++◌,
  ◌==◌, if◌then◌else◌, is_empty, has_byte, replace_byte, All, All-snoc,
}
use porch.Names.Paths.{slash, dot, join_with, file_join, trim}
use porch.Names.Split.{
  middle_and_last, three_parts, split_in_3_on_delimiter, after_last, at_dot, at_dot_v, semver_found,
  get_pr_workspace_name,
}
use porch.Names.Objects.{dotted_path, compose_pkg_rev_obj_name}
use porch.Names.Segments.{
  IsSegment, AreSegments, FreeOf, split_on-join_with, replace_byte-join_with, file_join_segments,
  join_with-snoc, trim_same, All-no_slash, join_with-starts, starts_with_byte,
}

snoc_as_append : (ts : List Text) (p : Text) → (a : Text) × (join_with dot (ts ++ p ∷ []) ≡ a ++ p)
unfolding join_with
snoc_as_append [] p = ([], refl)
snoc_as_append (t ∷ ts) p = (
  join_with dot (t ∷ ts) ++ (dot ∷ []),
  join_with-snoc dot t ts p ∙ sym (append_assoc (join_with dot (t ∷ ts)) (dot ∷ []) p),
)

starts-snoc :
    (ts : List Text) (p : Text)
    → AreSegments ts
    → IsSegment p
    → starts_with_byte dot (join_with dot (ts ++ p ∷ [])) ≡ false
starts-snoc [] p h q = (join_with-starts dot dot p [] q.filled q.no_dot).0
starts-snoc (t ∷ ts) p h q = (join_with-starts dot dot t (ts ++ p ∷ []) h.0.filled h.0.no_dot).0

pub dotted_path_lem :
    (ts : List Text) (p : Text)
    → AreSegments ts
    → IsSegment p
    → dotted_path (join_with slash ts) p ≡ join_with dot (ts ++ p ∷ [])
dotted_path_lem ts p h q =
    unfold_dotted
    ∙ ap (λ s. trim dot (replace_byte slash dot s)) (file_join_segments ts p h q)
    ∙ ap (trim dot) (
        replace_byte-join_with slash dot (ts ++ p ∷ [])
          (All-no_slash (ts ++ p ∷ []) (All-snoc IsSegment ts p h q)))
    ∙ (let (a, e) = snoc_as_append ts p in
        rw e (trim_same dot a p (rw e at (starts-snoc ts p h q)) q.filled q.no_dot))
  where
    unfold_dotted :
        dotted_path (join_with slash ts) p
        ≡ trim dot (replace_byte slash dot (file_join (join_with slash ts) p))
    unfold_dotted = unfold dotted_path in refl

-- Behind a first element.
pub join_with-cons :
    (c : ℕ) (t : Text) (ts : List Text) (p : Text)
    → join_with c (t ∷ (ts ++ p ∷ [])) ≡ t ++ (c ∷ join_with c (ts ++ p ∷ []))
unfolding join_with
join_with-cons c t [] p = refl
join_with-cons c t (u ∷ ts) p = refl

pub compose_pkg_rev_lem :
    (repo : Text) (ts : List Text) (p ws : Text)
    → IsSegment repo
    → AreSegments ts
    → IsSegment p
    → is_empty ws ≡ false
    → compose_pkg_rev_obj_name repo (join_with slash ts) p ws
      ≡ join_with dot (repo ∷ ((ts ++ p ∷ []) ++ ws ∷ []))
unfolding compose_pkg_rev_obj_name
compose_pkg_rev_lem repo ts p ws hr ht hp hw =
    rw (hr.filled, hp.filled, hw, dotted_path_lem ts p ht hp)
      (ap (λ s. repo ++ (dot ∷ s)) (sym (snoc_join ts p ws))
        ∙ sym (join_with-cons dot repo (ts ++ p ∷ []) ws))
  where
    snoc_join :
        (us : List Text) (q v : Text)
        → join_with dot ((us ++ q ∷ []) ++ v ∷ []) ≡ join_with dot (us ++ q ∷ []) ++ (dot ∷ v)
    snoc_join [] q v = join_with-snoc dot q [] v
    snoc_join (u ∷ us) q v = join_with-snoc dot u (us ++ q ∷ []) v

middle_and_last-snoc :
    (c : ℕ) (m : Text) (ts : List Text) (l : Text)
    → middle_and_last c m (ts ++ l ∷ []) ≡ (join_with c (m ∷ ts), l)
unfolding middle_and_last join_with
middle_and_last-snoc c m [] l = refl
middle_and_last-snoc c m (t ∷ []) l = refl
middle_and_last-snoc c m (t ∷ u ∷ ts) l =
    middle_and_last-snoc c (m ++ (c ∷ t)) (u ∷ ts) l
    ∙ ap (λ s. (s, l)) (append_assoc m (c ∷ t) (c ∷ join_with c (u ∷ ts)))

three_parts-snoc :
    (c : ℕ) (a : Text) (ts : List Text) (l : Text)
    → three_parts c (a ∷ (ts ++ l ∷ [])) ≡ (a, join_with c ts, l)
unfolding three_parts join_with
three_parts-snoc c a [] l = refl
three_parts-snoc c a (b ∷ []) l = refl
three_parts-snoc c a (b ∷ t ∷ ts) l =
    ap (λ (r : Text × Text). (a, r.0, r.1)) (middle_and_last-snoc c b (t ∷ ts) l)

-- SplitIn3OnDelimiter on elements that are free of the delimiter.
pub split_in_3-join :
    (a : Text) (ts : List Text) (l : Text)
    → All (FreeOf dot) (a ∷ (ts ++ l ∷ []))
    → split_in_3_on_delimiter (join_with dot (a ∷ (ts ++ l ∷ []))) dot ≡ (a, join_with dot ts, l)
unfolding split_in_3_on_delimiter
split_in_3-join a ts l h =
    ap (three_parts dot) (split_on-join_with dot a (ts ++ l ∷ []) h) ∙ three_parts-snoc dot a ts l

after_last-free :
    (f s : Text) → FreeOf dot s → (after_last at_dot f s ≡ f) × (after_last at_dot_v f s ≡ f)
unfolding after_last
after_last-free f [] h = (refl, refl)
after_last-free f (x ∷ []) h = ground arith
after_last-free f (x ∷ y ∷ s) h = ground (arith, after_last-free f (y ∷ s))

after_last-dot : (f base ws : Text) → FreeOf dot ws → after_last at_dot f (base ++ (dot ∷ ws)) ≡ ws
unfolding after_last
after_last-dot f [] ws h = (after_last-free ws ws h).0
after_last-dot f (x ∷ base) ws h =
    after_last-dot (if x == dot then base ++ (dot ∷ ws) else f) base ws h

after_last-dot_v :
    (f base ws : Text)
    → FreeOf dot ws
    → starts_with_byte b'v' ws ≡ true
    → after_last at_dot_v f (base ++ (dot ∷ ws)) ≡ ws
unfolding after_last
after_last-dot_v f [] [] h v = cc
after_last-dot_v f [] (x ∷ ws) h v =
    ap (λ b. after_last at_dot_v (if b then x ∷ ws else f) (x ∷ ws)) v
    ∙ (after_last-free (x ∷ ws) (x ∷ ws) h).1
after_last-dot_v f (x ∷ base) ws h v =
    after_last-dot_v (if at_dot_v (x ∷ (base ++ (dot ∷ ws))) then base ++ (dot ∷ ws) else f) base ws
      h v

has_dot : (base ws : Text) → has_byte dot (base ++ (dot ∷ ws)) ≡ true
has_dot [] ws = refl
has_dot (x ∷ base) ws = ground (arith, has_dot base ws)

-- No part of the name but the workspace looks like the start of a version.
abbrev pub IsUnambiguous : Text → Text → Type 0
IsUnambiguous name ws = (semver_found name ≡ false) ⊎ (starts_with_byte b'v' ws ≡ true)

pub get_pr_workspace_name_lem :
    (base ws : Text)
    → FreeOf dot ws
    → IsUnambiguous (base ++ (dot ∷ ws)) ws
    → get_pr_workspace_name (base ++ (dot ∷ ws)) ≡ ws
unfolding get_pr_workspace_name
get_pr_workspace_name_lem base ws h u = rw (has_dot base ws) (by_kind (semver_found name) refl u)
  where
    name : Text
    name = base ++ (dot ∷ ws)

    by_kind :
        (b : Bool)
        → semver_found name ≡ b
        → (semver_found name ≡ false) ⊎ (starts_with_byte b'v' ws ≡ true)
        → after_last (if b then at_dot_v else at_dot) name name ≡ ws
    by_kind false e q = after_last-dot name base ws h
    by_kind true e (inl q) = cc
    by_kind true e (inr q) = after_last-dot_v name base ws h q
