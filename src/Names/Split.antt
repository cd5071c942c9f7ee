-- ===== src/Names/Split.antt =====
-- api/util/util.go: the functions that take the names of objects apart.
use porch.Common.{
  ℕ, Bool, false, ◌&&◌, ◌||◌, Text, List, [], ◌∷◌, ◌++◌, ◌==◌, leb, if◌then◌else◌, has_byte, all,
}
use porch.Names.Paths.{dot, split_on}

-- The middle of a list of at least three parts, rejoined, and its last part. `middle` starts as the
-- second part; the list holds the parts from the third on, and is never empty.
unfoldable pub middle_and_last : ℕ → Text → List Text → Text × Text
middle_and_last delimiter middle [] = (middle, [])
middle_and_last delimiter middle (p ∷ []) = (middle, p)
middle_and_last delimiter middle (p ∷ q ∷ ps) =
    middle_and_last delimiter (middle ++ (delimiter ∷ p)) (q ∷ ps)

-- SplitIn3OnDelimiter on the result of strings.Split
unfoldable pub three_parts : ℕ → List Text → Text × Text × Text
unfolding middle_and_last
three_parts delimiter [] = ([], [], [])
three_parts delimiter (a ∷ []) = (a, [], [])
three_parts delimiter (a ∷ b ∷ []) = (a, [], b)
three_parts delimiter (a ∷ b ∷ c ∷ ps) =
    let (middle, last) = middle_and_last delimiter b (c ∷ ps) in (a, middle, last)

-- SplitIn3OnDelimiter, for a delimiter of one byte
unfoldable pub split_in_3_on_delimiter : Text → ℕ → Text × Text × Text
split_in_3_on_delimiter splitee delimiter = three_parts delimiter (split_on delimiter splitee)

-- s[strings.LastIndex(s, sep)+1:] for the place where the test holds of the rest of the text: what
-- follows the first byte of the last such place, or `found` if there is none.
unfoldable pub after_last : (Text → Bool) → Text → Text → Text
after_last test found [] = found
after_last test found (x ∷ s) = after_last test (if test (x ∷ s) then s else found) s

abbrev pub is_digit : ℕ → Bool
is_digit c = leb b'0' c && leb c b'9'

abbrev pub is_digit_or_dot : ℕ → Bool
is_digit_or_dot c = is_digit c || c == dot

abbrev pub ends_in_digit : Text → Bool
ends_in_digit [] = false
ends_in_digit (x ∷ []) = is_digit x
ends_in_digit (x ∷ y ∷ s) = ends_in_digit (y ∷ s)

-- Does the whole text match `\.v[0-9\.]*[0-9]`?
unfoldable pub is_semver_suffix : Text → Bool
is_semver_suffix [] = false
is_semver_suffix (x ∷ []) = false
is_semver_suffix (x ∷ y ∷ s) = x == dot && (y == b'v' && (all is_digit_or_dot s && ends_in_digit s))

-- regexp.MatchString("\\.v[0-9\\.]*[0-9]$", s)
unfoldable pub semver_found : Text → Bool
unfolding is_semver_suffix
semver_found [] = false
semver_found (x ∷ s) = is_semver_suffix (x ∷ s) || semver_found s

abbrev pub at_dot : Text → Bool
at_dot [] = false
at_dot (x ∷ s) = x == dot

abbrev pub at_dot_v : Text → Bool
at_dot_v [] = false
at_dot_v (x ∷ []) = false
at_dot_v (x ∷ y ∷ s) = x == dot && y == b'v'

-- GetPRWorkspaceName
unfoldable pub get_pr_workspace_name : Text → Text
get_pr_workspace_name name =
    if has_byte dot name
    then after_last (if semver_found name then at_dot_v else at_dot) name name
    else []
