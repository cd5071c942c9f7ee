-- ===== src/DataSize.antt =====
-- pkg/util/datasize/datasize.go: sizes of data with units. strconv and strings are standard library:
-- the decimal numbers and the upper case are written out for ASCII.
pub mod Decimal
pub mod RoundTrip
use porch.Common.{
  ℕ, zero, suc, ◌+◌, ◌-◌, ◌*◌, ◌/◌, ◌%◌, ◌^◌, Bool, true, false, not, ◌&&◌, ◌||◌, ◌==◌, ltb, leb,
  Text, eqb, is_empty, codes, List, [], ◌∷◌, ◌++◌, reverse, Option, none, some, if◌then◌else◌, all,
}

abbrev pub kb : ℕ
kb = 1024

abbrev pub mb : ℕ
mb = 1048576

abbrev pub gb : ℕ
gb = 1073741824

-- math.MaxInt64
abbrev pub max_int64 : ℕ
max_int64 = 9223372036854775807

abbrev pub is_digit : ℕ → Bool
is_digit c = leb b'0' c && leb c b'9'

-- The digits in front of a text, and what follows them: the first loop of Parse.
unfoldable pub span_digits : Text → Text × Text
span_digits [] = ([], [])
span_digits (c ∷ s) =
    let (digits, rest) = span_digits s in if is_digit c then (c ∷ digits, rest) else ([], c ∷ s)

-- The value of decimal digits, behind the value of those in front.
unfoldable pub digits_value : ℕ → Text → ℕ
digits_value n [] = n
digits_value n (c ∷ s) = digits_value (n * 10 + (c - b'0')) s

-- strconv.ParseInt(s, 10, 64) on digits: `none` if the value does not fit into an int64
unfoldable pub parse_int : Text → Option ℕ
parse_int s = let n = digits_value 0 s in if leb n max_int64 then some n else none

-- strings.TrimSpace for ASCII
abbrev pub is_space : ℕ → Bool
is_space c = c == 32 || (leb 9 c && leb c 13)

unfoldable pub trim_left_space : Text → Text
trim_left_space [] = []
trim_left_space (c ∷ s) = let rest = trim_left_space s in if is_space c then rest else c ∷ s

unfoldable pub trim_space : Text → Text
trim_space s = reverse (trim_left_space (reverse (trim_left_space s)))

-- strings.ToUpper for ASCII
unfoldable pub to_upper : Text → Text
to_upper [] = []
to_upper (c ∷ s) = (if leb b'a' c && leb c b'z' then c - 32 else c) ∷ to_upper s

-- The map `units`.
unfoldable pub unit_of : Text → Option ℕ
unit_of name =
    if eqb name []
    then some 1
    else if eqb name (codes "B")
    then some 1
    else if eqb name (codes "KB") || eqb name (codes "KIB")
    then some kb
    else if eqb name (codes "MB") || eqb name (codes "MIB")
    then some mb
    else if eqb name (codes "GB") || eqb name (codes "GIB")
    then some gb
    else none

pub data ParseError : Type 0 where
  no_number number_too_large unknown_unit value_too_large : ParseError

pub data Parsed : Type 0 where
  size : ℕ → Parsed
  invalid : ParseError → Parsed

abbrev pub with_unit : ℕ → Option ℕ → Parsed
with_unit number none = invalid unknown_unit
with_unit number (some unit) =
    if ltb (max_int64 / unit) number then invalid value_too_large else size (number * unit)

abbrev pub with_number : Option ℕ → Text → Parsed
with_number none rest = invalid number_too_large
with_number (some number) rest = with_unit number (unit_of (to_upper (trim_space rest)))

-- Parse
unfoldable pub parse : Text → Parsed
parse s =
    let (digits, rest) = span_digits (trim_space s) in
    if is_empty digits then invalid no_number else with_number (parse_int digits) rest

-- The decimal digits of a number, in front of a text; `fuel` bounds their number.
unfoldable pub digits_onto : ℕ → ℕ → Text → Text
digits_onto zero n s = s
digits_onto (suc fuel) n s =
    let rest = digits_onto fuel (n / 10) ((b'0' + n % 10) ∷ s) in
    if ltb n 10 then (b'0' + n) ∷ s else rest

-- strconv.FormatInt for a number that is not negative, in front of a unit; a number has no more
-- digits than n + 1.
unfoldable pub decimal : ℕ → Text → Text
decimal n s = digits_onto (suc n) n s

-- Format for a size that is not negative
unfoldable pub format : ℕ → Text
format n =
    if n == 0
    then codes "0B"
    else if n % gb == 0
    then decimal (n / gb) (codes "GB")
    else if n % mb == 0
    then decimal (n / mb) (codes "MB")
    else if n % kb == 0
    then decimal (n / kb) (codes "KB")
    else decimal n (codes "B")
