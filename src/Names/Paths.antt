-- ===== src/Names/Paths.antt =====
-- The functions of Go's `strings` and `path/filepath` (on Unix) that take names and paths apart:
-- Split, Join, Trim, Clean and filepath.Join, on bytes.
use porch.Common.{
  ℕ, Bool, true, false, ◌||◌, Text, List, [], ◌∷◌, ◌++◌, ◌==◌, if◌then◌else◌, eqb, is_empty, codes,
  reverse,
}

abbrev pub slash : ℕ
slash = b'/'

abbrev pub dot : ℕ
dot = b'.'

-- Put a byte in front of the first part.
abbrev pub cons_first : ℕ → List Text → List Text
cons_first x [] = (x ∷ []) ∷ []
cons_first x (p ∷ ps) = (x ∷ p) ∷ ps

-- strings.Split(s, sep) for a separator of one byte: never an empty list
unfoldable pub split_on : ℕ → Text → List Text
split_on c [] = [] ∷ []
split_on c (x ∷ s) = let rest = split_on c s in if x == c then [] ∷ rest else cons_first x rest

-- strings.Join(parts, sep)
unfoldable pub join_with : ℕ → List Text → Text
join_with c [] = []
join_with c (p ∷ []) = p
join_with c (p ∷ q ∷ ps) = p ++ (c ∷ join_with c (q ∷ ps))

-- What path.Clean does at an element "..": drop the last element, or keep the ".." of a path that
-- is not rooted.
unfoldable pub parent : Bool → List Text → List Text
parent rooted [] = if rooted then [] else codes ".." ∷ []
parent rooted (t ∷ ts) = if eqb t (codes "..") then codes ".." ∷ t ∷ ts else ts

-- One round of the loop of path.Clean; `out` is the path so far, its last element first.
unfoldable pub clean_element : Bool → Text → List Text → List Text
unfolding parent
clean_element rooted e out =
    if is_empty e || eqb e (codes ".")
    then out
    else if eqb e (codes "..")
    then parent rooted out
    else e ∷ out

unfoldable pub clean_elements : Bool → List Text → List Text → List Text
unfolding clean_element
clean_elements rooted [] out = out
clean_elements rooted (e ∷ es) out = clean_elements rooted es (clean_element rooted e out)

abbrev pub is_rooted : Text → Bool
is_rooted [] = false
is_rooted (x ∷ s) = x == slash

-- The result from the joined elements: "." for a path that is not rooted and has none left.
abbrev pub finish : Bool → Text → Text
finish true body = slash ∷ body
finish false [] = codes "."
finish false (x ∷ s) = x ∷ s

-- path.Clean
unfoldable pub clean : Text → Text
unfolding clean_elements split_on join_with
clean s =
    finish (is_rooted s)
      (join_with slash (reverse (clean_elements (is_rooted s) (split_on slash s) [])))

-- filepath.Join of two elements: "" if both are empty
unfoldable pub file_join : Text → Text → Text
unfolding clean join_with
file_join [] [] = []
file_join [] (x ∷ b) = clean (x ∷ b)
file_join (x ∷ a) b = clean (join_with slash ((x ∷ a) ∷ b ∷ []))

unfoldable pub trim_left : ℕ → Text → Text
trim_left c [] = []
trim_left c (x ∷ s) = let rest = trim_left c s in if x == c then rest else x ∷ s

-- strings.Trim(s, cutset) for a cutset of one byte
unfoldable pub trim : ℕ → Text → Text
unfolding trim_left
trim c s = reverse (trim_left c (reverse (trim_left c s)))
