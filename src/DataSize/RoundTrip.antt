-- ===== src/DataSize/RoundTrip.antt =====
-- Sizes that are printed and parsed (pkg/util/datasize/datasize.go).
use mathlib.Core.List.{reverse-append, reverse-reverse}
use porch.Common.{
  ℕ, ◌*◌, ◌/◌, ◌%◌, ◌≤◌, Bool, true, false, ◌==◌, ◌≡◌, ◌⊎◌, refl, sym, ap, ◌∙◌, arith, ltb, leb,
  Text, eqb, is_empty, codes, [], ◌∷◌, ◌++◌, reverse, Option, none, some, all, Bool-cases, inl, inr,
}
use porch.DataSize.{
  kb, mb, gb, max_int64, is_digit, span_digits, digits_value, parse_int, is_space, trim_left_space,
  trim_space, to_upper, unit_of, size, with_unit, with_number, parse, decimal, format,
}
use porch.DataSize.Decimal.{decimal-Writes, starts_with_digit, span_digits-append}

abbrev starts_with_space : Text → Bool
starts_with_space [] = false
starts_with_space (c ∷ s) = is_space c

trim_left_same : (s : Text) → starts_with_space s ≡ false → trim_left_space s ≡ s
unfolding trim_left_space
trim_left_same [] h = refl
trim_left_same (c ∷ s) h = simp h refl

trim_same :
    (digits u : Text)
    → all is_digit digits ≡ true
    → is_empty digits ≡ false
    → starts_with_space (reverse u) ≡ false
    → is_empty (reverse u) ≡ false
    → trim_space (digits ++ u) ≡ digits ++ u
unfolding trim_space
trim_same digits u a e h f =
    ap (λ t. reverse (trim_left_space (reverse t)))
      (trim_left_same (digits ++ u) (no_space digits a e))
    ∙ ap (λ t. reverse (trim_left_space t)) (reverse-append digits u)
    ∙ ap reverse (trim_left_same (reverse u ++ reverse digits) (in_front (reverse u) f h))
    ∙ ap reverse (sym (reverse-append digits u))
    ∙ reverse-reverse (digits ++ u)
  where
    no_space :
        (d : Text) → all is_digit d ≡ true → is_empty d ≡ false → starts_with_space (d ++ u) ≡ false
    no_space [] p q = cc
    no_space (c ∷ d) p q = ground arith

    in_front :
        (v : Text)
        → is_empty v ≡ false
        → starts_with_space v ≡ false
        → starts_with_space (v ++ reverse digits) ≡ false
    in_front [] p q = cc
    in_front (c ∷ v) p q = q

-- A text that is read as a unit behind a number.
record IsUnit (u : Text) (unit : ℕ) : Type 0 where
  no_digit : starts_with_digit u ≡ false
  no_space_behind : starts_with_space (reverse u) ≡ false
  filled : is_empty (reverse u) ≡ false
  is_unit : unit_of (to_upper (trim_space u)) ≡ some unit

parse-decimal :
    (n unit : ℕ) (u : Text)
    → IsUnit u unit
    → n ≤ max_int64
    → n ≤ max_int64 / unit
    → parse (decimal n u) ≡ size (n * unit)
unfolding parse parse_int
parse-decimal n unit u i small fits =
    let w = decimal-Writes n u in
    rw
      (
        w.is_written,
        trim_same w.digits u w.all_digits w.not_empty i.no_space_behind i.filled,
        span_digits-append w.digits u w.all_digits i.no_digit,
        w.not_empty,
        w.has_value,
        is_small,
      )
      (rw (i.is_unit, does_fit) refl)
  where
    is_small : leb n max_int64 ≡ true
    is_small = ground (arith, small)

    does_fit : ltb (max_int64 / unit) n ≡ false
    does_fit = ground (arith, fits)

b-IsUnit : IsUnit (codes "B") 1
unfolding unit_of to_upper trim_space trim_left_space eqb
b-IsUnit = record { no_digit = refl; no_space_behind = refl; filled = refl; is_unit = refl }

kb-IsUnit : IsUnit (codes "KB") kb
unfolding unit_of to_upper trim_space trim_left_space eqb
kb-IsUnit = record { no_digit = refl; no_space_behind = refl; filled = refl; is_unit = refl }

mb-IsUnit : IsUnit (codes "MB") mb
unfolding unit_of to_upper trim_space trim_left_space eqb
mb-IsUnit = record { no_digit = refl; no_space_behind = refl; filled = refl; is_unit = refl }

gb-IsUnit : IsUnit (codes "GB") gb
unfolding unit_of to_upper trim_space trim_left_space eqb
gb-IsUnit = record { no_digit = refl; no_space_behind = refl; filled = refl; is_unit = refl }

parse-zero : parse (codes "0B") ≡ size 0
unfolding parse parse_int span_digits digits_value unit_of to_upper trim_space trim_left_space eqb
parse-zero = refl

-- A size that fits into an int64 is printed as a text that is parsed as the same size.
pub parse-format : (n : ℕ) → n ≤ max_int64 → parse (format n) ≡ size n
unfolding format
parse-format n h = elim (Bool-cases (n == 0)) [
  | inl z ↦ simp z (parse-zero ∙ ap size (ground arith))
  | inr z ↦ elim (Bool-cases (n % gb == 0)) [
    | inl g ↦
        simp (z, g)
          (exact gb (codes "GB") gb-IsUnit (n / gb) (omega (arith, h)) (omega (arith, h))
            (ground arith))
    | inr g ↦ elim (Bool-cases (n % mb == 0)) [
      | inl m ↦
          simp (z, g, m)
            (exact mb (codes "MB") mb-IsUnit (n / mb) (omega (arith, h)) (omega (arith, h))
              (ground arith))
      | inr m ↦ elim (Bool-cases (n % kb == 0)) [
        | inl k ↦
            simp (z, g, m, k)
              (exact kb (codes "KB") kb-IsUnit (n / kb) (omega (arith, h)) (omega (arith, h))
                (ground arith))
        | inr k ↦
            simp (z, g, m, k) (exact 1 (codes "B") b-IsUnit n h (omega (arith, h)) (omega arith))
      ]
    ]
  ]
]
  where
    exact :
        (unit : ℕ) (u : Text)
        → IsUnit u unit
        → (k : ℕ) → k ≤ max_int64
        → k ≤ max_int64 / unit
        → k * unit ≡ n
        → parse (decimal k u) ≡ size n
    exact unit u i k small fits e = parse-decimal k unit u i small fits ∙ ap size e

unit_cases :
    (name : Text) (unit : ℕ)
    → unit_of name ≡ some unit
    → (unit ≡ 1) ⊎ (unit ≡ kb) ⊎ (unit ≡ mb) ⊎ (unit ≡ gb)
unfolding unit_of
unit_cases name unit h = ground arith

product-fits :
    (unit number : ℕ)
    → (unit ≡ 1) ⊎ (unit ≡ kb) ⊎ (unit ≡ mb) ⊎ (unit ≡ gb)
    → ltb (max_int64 / unit) number ≡ false
    → number * unit ≤ max_int64
product-fits unit number (inl u) l = rw u (ground (arith, rw u at l))
product-fits unit number (inr (inl u)) l = rw u (ground (arith, rw u at l))
product-fits unit number (inr (inr (inl u))) l = rw u (ground (arith, rw u at l))
product-fits unit number (inr (inr (inr u))) l = rw u (ground (arith, rw u at l))

with_unit-bound :
    (number n : ℕ) (name : Text) (o : Option ℕ)
    → unit_of name ≡ o
    → with_unit number o ≡ size n
    → n ≤ max_int64
with_unit-bound number n name none e q = cc q
with_unit-bound number n name (some unit) e q = elim (Bool-cases (ltb (max_int64 / unit) number)) [
  | inl l ↦ cc (simp l at q)
  | inr l ↦ ground (arith, product-fits unit number (unit_cases name unit e) l, simp l at q)
]

with_number-bound :
    (o : Option ℕ) (rest : Text) (n : ℕ) → with_number o rest ≡ size n → n ≤ max_int64
with_number-bound none rest n h = cc h
with_number-bound (some number) rest n h =
    with_unit-bound number n (to_upper (trim_space rest)) (unit_of (to_upper (trim_space rest)))
      refl h

-- A text that is parsed as a size is parsed as one that fits into an int64.
pub parse-bound : (s : Text) (n : ℕ) → parse s ≡ size n → n ≤ max_int64
unfolding parse
parse-bound s n h = elim (Bool-cases (is_empty (span_digits (trim_space s)).0)) [
  | inl e ↦ cc (simp e at h)
  | inr e ↦
      with_number-bound (parse_int (span_digits (trim_space s)).0) (span_digits (trim_space s)).1 n
        (simp e at h)
]
