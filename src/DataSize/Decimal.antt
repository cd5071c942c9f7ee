-- ===== src/DataSize/Decimal.antt =====
-- Decimal numbers, written and read (pkg/util/datasize/datasize.go).
use mathlib.Core.List.{append_assoc}
use porch.Common.{
  ℕ, zero, suc, ◌+◌, ◌-◌, ◌*◌, ◌/◌, ◌%◌, ◌<◌, Bool, true, false, ◌≡◌, refl, sym, ◌∙◌, arith, ltb,
  Text, is_empty, [], ◌∷◌, ◌++◌, all, all-append, Bool-cases, inl, inr,
}
use porch.DataSize.{is_digit, span_digits, digits_value, digits_onto, decimal}

-- `digits` writes `n` in front of `s`.
pub record Writes (n : ℕ) (s written : Text) : Type 0 where
  pub digits : Text
  pub is_written : written ≡ digits ++ s
  pub all_digits : all is_digit digits ≡ true
  pub not_empty : is_empty digits ≡ false
  pub has_value : digits_value 0 digits ≡ n

digits_value-append :
    (n : ℕ) (a b : Text) → digits_value n (a ++ b) ≡ digits_value (digits_value n a) b
unfolding digits_value
digits_value-append n [] b = refl
digits_value-append n (c ∷ a) b = digits_value-append (n * 10 + (c - b'0')) a b

empty-append : (a : Text) (c : ℕ) → is_empty (a ++ c ∷ []) ≡ false
empty-append [] c = refl
empty-append (x ∷ a) c = refl

longer-Writes :
    (n : ℕ) (s written : Text) → Writes (n / 10) ((b'0' + n % 10) ∷ s) written → Writes n s written
unfolding digits_value
longer-Writes n s written w = record {
  digits = w.digits ++ (b'0' + n % 10) ∷ [];
  is_written = w.is_written ∙ sym (append_assoc w.digits ((b'0' + n % 10) ∷ []) s);
  all_digits =
      rw (all-append is_digit w.digits ((b'0' + n % 10) ∷ []), w.all_digits) (ground arith);
  not_empty = empty-append w.digits (b'0' + n % 10);
  has_value = rw (digits_value-append 0 w.digits ((b'0' + n % 10) ∷ []), w.has_value) (omega arith);
}

digits_onto-Writes : (fuel n : ℕ) (s : Text) → n < fuel → Writes n s (digits_onto fuel n s)
unfolding digits_onto digits_value
digits_onto-Writes zero n s h = absurd (omega (arith, h))
digits_onto-Writes (suc fuel) n s h = elim (Bool-cases (ltb n 10)) [
  | inl e ↦ simp e (record {
    digits = (b'0' + n) ∷ [];
    is_written = refl;
    all_digits = ground arith;
    not_empty = refl;
    has_value = omega arith;
  })
  | inr e ↦ simp e (
      longer-Writes n s (digits_onto fuel (n / 10) ((b'0' + n % 10) ∷ s))
        (digits_onto-Writes fuel (n / 10) ((b'0' + n % 10) ∷ s) (ground arith)))
]

pub decimal-Writes : (n : ℕ) (s : Text) → Writes n s (decimal n s)
unfolding decimal
decimal-Writes n s = digits_onto-Writes (suc n) n s (omega arith)

-- A text that does not start with a digit.
abbrev pub starts_with_digit : Text → Bool
starts_with_digit [] = false
starts_with_digit (c ∷ s) = is_digit c

pub span_digits-append :
    (digits s : Text)
    → all is_digit digits ≡ true
    → starts_with_digit s ≡ false
    → span_digits (digits ++ s) ≡ (digits, s)
unfolding span_digits
span_digits-append [] [] a h = refl
span_digits-append [] (c ∷ s) a h = simp h refl
span_digits-append (c ∷ digits) s a h = ground (arith, span_digits-append digits s)
