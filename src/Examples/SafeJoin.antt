-- ===== src/Examples/SafeJoin.antt =====
-- Paths that are accepted, and paths that leave the package.
use porch.Common.{
  some, ◌++◌, has_prefix, ◌≡◌, refl, true, false, all, codes, List, [], ◌∷◌, Text, eqb,
}
use porch.Names.Paths.{clean, file_join, join_with, slash, split_on}
use porch.SafeJoin.Inside.{safe_join-inside}
use porch.SafeJoin.{
  elements, without_dot, filepath_safe_join, rel, rel_elements, validate_resource_paths,
}
use porch.SafeJoin.Cleaned.{is_plain}
use porch.SafeJoin.Canonical.{is_canonical, validate_resource_paths-canonical}

abbrev escaping : List Text
escaping = codes "Kptfile" ∷ codes "a/../../b" ∷ []

validate_resource_paths-canonical_example :
    validate_resource_paths escaping ≡ all is_canonical escaping
validate_resource_paths-canonical_example = validate_resource_paths-canonical escaping

refused : all is_canonical escaping ≡ false
unfolding is_canonical is_plain split_on eqb
refused = refl

accepted : all is_canonical (codes "Kptfile" ∷ codes "apps/v1.2/..data.yaml" ∷ []) ≡ true
unfolding is_canonical is_plain split_on eqb
accepted = refl

joined_path : filepath_safe_join (codes "/tmp/x") (codes "a/b") ≡ some (codes "/tmp/x/a/b")
unfolding filepath_safe_join rel rel_elements file_join clean split_on join_with eqb has_prefix
joined_path = refl

safe_join-inside_example :
    (es : List Text) × (elements (clean (codes "/tmp/x/a/b"))
      ≡ elements (without_dot (clean (codes "/tmp/x"))) ++ es)
    × (join_with slash es ≡ codes "a/b")
safe_join-inside_example =
    safe_join-inside (codes "/tmp/x") (codes "a/b") (codes "/tmp/x/a/b") joined_path
