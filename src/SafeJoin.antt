-- ===== src/SafeJoin.antt =====
-- pkg/util/safejoin.go: the paths of the resources of a package.
pub mod Cleaned
pub mod Relative
pub mod Canonical
pub mod Inside
use porch.Common.{
  is_some, Bool, true, false, not, ◌||◌, ◌&&◌, Text, List, [], ◌∷◌, ◌++◌, map, Option, none, some,
  if◌then◌else◌, eqb, is_empty, codes, has_prefix, keep_if, all,
}
use porch.Names.Paths.{slash, split_on, join_with, is_rooted, clean, file_join}

-- The elements of a clean path
abbrev pub elements : Text → List Text
elements t = keep_if (λ e. not (is_empty e)) (split_on slash t)

-- One ".." for each element
abbrev pub ups : List Text → List Text
ups = map (λ e. codes "..")

-- The end of filepath.Rel: from the first elements that differ
unfoldable pub rel_elements : List Text → List Text → Option (List Text)
rel_elements [] ts = some ts
rel_elements (b ∷ bs) [] = if eqb b (codes "..") then none else some (ups (b ∷ bs))
rel_elements (b ∷ bs) (t ∷ ts) =
    let rest = rel_elements bs ts in
    if eqb b t then rest else if eqb b (codes "..") then none else some (ups (b ∷ bs) ++ t ∷ ts)

abbrev pub joined : Option (List Text) → Option Text
joined none = none
joined (some ts) = some (join_with slash ts)

abbrev pub without_dot : Text → Text
without_dot b = if eqb b (codes ".") then [] else b

abbrev pub same_bool : Bool → Bool → Bool
same_bool true b = b
same_bool false b = not b

-- filepath.Rel on Unix
unfoldable pub rel : Text → Text → Option Text
rel base target =
    let b = clean base in
    let t = clean target in
    if eqb t b
    then some (codes ".")
    else if not (same_bool (is_rooted (without_dot b)) (is_rooted t))
    then none
    else joined (rel_elements (elements (without_dot b)) (elements t))

-- The test of FilepathSafeJoin on the result of filepath.Rel
abbrev pub is_refused : Text → Text → Bool
is_refused relative r =
    eqb r (codes ".")
    || (eqb r (codes "..")
        || (not (eqb r relative) || (has_prefix (codes "../") r || has_prefix (codes "./") r)))

abbrev pub checked : Text → Text → Option Text → Option Text
checked relative p none = none
checked relative p (some r) = if is_refused relative r then none else some p

-- FilepathSafeJoin
unfoldable pub filepath_safe_join : Text → Text → Option Text
filepath_safe_join dir relative =
    let p = clean (file_join dir relative) in checked relative p (rel dir p)

-- ValidateResourcePaths on the keys of the resources: is there no error?
unfoldable pub validate_resource_paths : List Text → Bool
validate_resource_paths = all (λ k. is_some (filepath_safe_join (codes ".") k))
