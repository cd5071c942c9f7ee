-- ===== src/Database/Markers.antt =====
-- The push markers of rows (pkg/cache/dbcache/dbpackagerevision.go).
use porch.Common.{ℕ, true, Option, none, some, ◌≡◌, refl, arith, ◌<◌, ◌≤◌}
use porch.Database.{Row, pushed_before, preserve_push_markers, preserved_markers}
use porch.Database.Objects.{pr_needs_push_to_git}

-- No time of `o` is `n` or later.
abbrev pub IsBelow : ℕ → Option ℕ → Type 0
IsBelow n none = Unit
IsBelow n (some t) = t < n

pub below-pushed : (u : ℕ) (o : Option ℕ) → IsBelow u o → pushed_before u o ≡ true
below-pushed u none h = refl
below-pushed u (some t) h = ground arith

pub below-needs : (r : Row) → IsBelow r.updated r.last_pushed → pr_needs_push_to_git r ≡ true
unfolding pr_needs_push_to_git
below-needs r h = below-pushed r.updated r.last_pushed h

pub IsBelow-mono : (m n : ℕ) (o : Option ℕ) → m ≤ n → IsBelow m o → IsBelow n o
IsBelow-mono m n none l h = tt
IsBelow-mono m n (some t) l h = omega arith

abbrev pub IsStamped : ℕ → Row → Type 0
IsStamped n row = (row.updated < n) × IsBelow n row.last_pushed

markers-updated : (r x : Row) (a b : Option ℕ) → (preserved_markers r x a b).updated ≡ r.updated
markers-updated r x none (some t) = refl
markers-updated r x none none = refl
markers-updated r x (some t) b = refl

pub preserve-updated : (r x : Row) → (preserve_push_markers r x).updated ≡ r.updated
unfolding preserve_push_markers
preserve-updated r x = markers-updated r x r.last_pushed x.last_pushed

-- The marker is that of the object, or that of the row.
markers-last :
    (P : Option ℕ → Type 0) (r x : Row) (a b : Option ℕ)
    → P r.last_pushed
    → P b
    → P (preserved_markers r x a b).last_pushed
markers-last P r x none (some t) h i = i
markers-last P r x none none h i = h
markers-last P r x (some t) b h i = h

pub preserve-last :
    (P : Option ℕ → Type 0) (r x : Row)
    → P r.last_pushed
    → P x.last_pushed
    → P (preserve_push_markers r x).last_pushed
unfolding preserve_push_markers
preserve-last P r x h i = markers-last P r x r.last_pushed x.last_pushed h i

pub later-IsStamped : (m n : ℕ) (r : Row) → m ≤ n → IsStamped m r → IsStamped n r
later-IsStamped m n r l h = (omega arith, IsBelow-mono m n r.last_pushed l h.1)
