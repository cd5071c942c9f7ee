-- ===== src/Common/Strings.antt =====
-- Go strings as lists of bytes, with the functions of `strings` that the program calls.
use Prim.Native.Nat.{ℕ}
use Prim.Native.Char.{code}
use Prim.Native.String.{String}
use mathlib.Core.Path.{◌≡◌, refl}
use mathlib.Core.Logic.{◌↔◌}
use mathlib.Core.Bool.{Bool, true, false, ◌&&◌, ◌||◌}
use mathlib.Core.List.{List, [], ◌∷◌, ◌++◌, reverse}
use native.Mathlib.Omega.{arith}
use porch.Common.Tests.{◌==◌, ==_iff, if◌then◌else◌}
use porch.Common.Lists.{any}

abbrev pub Text : Type 0
Text = List ℕ

-- The bytes of an ASCII literal.
abbrev pub codes : String → Text
codes String.[] = []
codes (String.◌∷◌ c s) = code c ∷ codes s

-- a == b
unfoldable pub eqb : Text → Text → Bool
eqb [] [] = true
eqb [] (y ∷ b) = false
eqb (x ∷ a) [] = false
eqb (x ∷ a) (y ∷ b) = x == y && eqb a b

pub eqb_refl : (a : Text) → eqb a a ≡ true
unfolding eqb
eqb_refl [] = refl
eqb_refl (x ∷ a) = ground (arith, eqb_refl a)

pub eqb→eq : (a b : Text) → eqb a b ≡ true → a ≡ b
unfolding eqb
eqb→eq [] [] h = refl
eqb→eq [] (y ∷ b) h = cc
eqb→eq (x ∷ a) [] h = cc
eqb→eq (x ∷ a) (y ∷ b) h = ground (arith, eqb→eq a b)

pub eqb_iff : (a b : Text) → (eqb a b ≡ true) ↔ (a ≡ b)
eqb_iff a b = (eqb→eq a b, λ e. rw e (eqb_refl b))

-- s == ""
abbrev pub is_empty : Text → Bool
is_empty [] = true
is_empty (x ∷ a) = false

-- strings.HasPrefix(s, prefix), with the prefix first
unfoldable pub has_prefix : Text → Text → Bool
has_prefix [] s = true
has_prefix (x ∷ p) [] = false
has_prefix (x ∷ p) (y ∷ s) = x == y && has_prefix p s

pub has_prefix-append : (p s : Text) → has_prefix p (p ++ s) ≡ true
unfolding has_prefix
has_prefix-append [] s = refl
has_prefix-append (x ∷ p) s = ground (arith, has_prefix-append p s)

pub has_prefix-find : (p s : Text) → has_prefix p s ≡ true → (r : Text) × (s ≡ p ++ r)
unfolding has_prefix
has_prefix-find [] s h = (s, refl)
has_prefix-find (x ∷ p) [] h = cc
has_prefix-find (x ∷ p) (y ∷ s) h =
    let (r, e) = has_prefix-find p s (ground arith) in (r, ground (arith, ==_iff x y))

-- strings.HasSuffix(s, suffix), with the suffix first
unfoldable pub has_suffix : Text → Text → Bool
unfolding has_prefix
has_suffix p s = has_prefix (reverse p) (reverse s)

-- strings.Contains(s, sub), with the part looked for first
unfoldable pub contains : Text → Text → Bool
unfolding has_prefix
contains p [] = is_empty p
contains p (x ∷ s) = has_prefix p (x ∷ s) || contains p s

-- strings.ReplaceAll(s, old, new) for one-byte texts
unfoldable pub replace_byte : ℕ → ℕ → Text → Text
replace_byte old new [] = []
replace_byte old new (x ∷ s) = (if x == old then new else x) ∷ replace_byte old new s

-- Does the byte occur?
abbrev pub has_byte : ℕ → Text → Bool
has_byte c = any (λ x. x == c)

pub has_byte-replace_byte :
    (old new : ℕ) (s : Text) → (old == new) ≡ false → has_byte old (replace_byte old new s) ≡ false
unfolding replace_byte
has_byte-replace_byte old new [] h = refl
has_byte-replace_byte old new (x ∷ s) h = ground (arith, has_byte-replace_byte old new s h)

pub replace_byte-replace_byte :
    (old new : ℕ) (s : Text)
    → has_byte new s ≡ false
    → replace_byte new old (replace_byte old new s) ≡ s
unfolding replace_byte
replace_byte-replace_byte old new [] h = refl
replace_byte-replace_byte old new (x ∷ s) h = ground (arith, replace_byte-replace_byte old new s)

pub replace_byte_same :
    (old new : ℕ) (s : Text) → has_byte old s ≡ false → replace_byte old new s ≡ s
unfolding replace_byte
replace_byte_same old new [] h = refl
replace_byte_same old new (x ∷ s) h = ground (arith, replace_byte_same old new s)
