-- ===== src/Examples/DataSize.antt =====
-- A size of some megabytes.
use porch.Common.{◌≡◌, refl, arith, codes}
use porch.DataSize.{
  parse, format, size, parse_int, span_digits, digits_value, unit_of, to_upper, trim_space,
  trim_left_space,
}
use porch.Common.{eqb}
use porch.DataSize.RoundTrip.{parse-format}

parse-format_example : parse (format 6291456) ≡ size 6291456
parse-format_example = parse-format 6291456 (omega arith)

is_parsed : parse (codes " 6 MiB ") ≡ size 6291456
unfolding parse parse_int span_digits digits_value unit_of to_upper trim_space trim_left_space eqb
is_parsed = refl
