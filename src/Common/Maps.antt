-- ===== src/Common/Maps.antt =====
-- Go's map[string]string as an association list. The order of the entries stands for the order in
-- which a loop over the map meets them.
use mathlib.Core.Path.{◌≡◌, refl, ap}
use mathlib.Core.Option.{Option, none, some}
use mathlib.Core.List.{List, [], ◌∷◌}
use native.Mathlib.Omega.{arith}
use mathlib.Core.Logic.{inl, inr}
use porch.Common.Tests.{Bool-cases, if◌then◌else◌}
use porch.Common.Strings.{Text, eqb, eqb_iff, eqb_refl}

abbrev pub Dict : Type 0
Dict = List (Text × Text)

-- v, ok := m[k]
unfoldable pub get : Text → Dict → Option Text
get k [] = none
get k ((j, v) ∷ m) = if eqb j k then some v else get k m

-- m[k], "" for a missing key
abbrev pub value : Option Text → Text
value none = []
value (some v) = v

unfoldable pub get_or_empty : Text → Dict → Text
unfolding get
get_or_empty k m = value (get k m)

-- m[k] = v
unfoldable pub put : Text → Text → Dict → Dict
put k v [] = (k, v) ∷ []
put k v ((j, w) ∷ m) = if eqb j k then (j, v) ∷ m else (j, w) ∷ put k v m

-- delete(m, k)
unfoldable pub remove : Text → Dict → Dict
remove k [] = []
remove k ((j, w) ∷ m) = let rest = remove k m in if eqb j k then rest else (j, w) ∷ rest

pub get-put : (k j v : Text) (m : Dict) → get j (put k v m) ≡ (if eqb k j then some v else get j m)
unfolding get put
get-put k j v [] = refl
get-put k j v ((i, w) ∷ m) = ground (arith, eqb_iff i k, eqb_iff i j, eqb_iff k j, get-put k j v m)

pub get-remove : (k j : Text) (m : Dict) → get j (remove k m) ≡ (if eqb k j then none else get j m)
unfolding get remove
get-remove k j [] = ground arith
get-remove k j ((i, w) ∷ m) =
    ground (arith, eqb_iff i k, eqb_iff i j, eqb_iff k j, get-remove k j m)

pub remove-put : (k v : Text) (m : Dict) → remove k (put k v m) ≡ remove k m
unfolding remove put
remove-put k v [] = rw (eqb_refl k) refl
remove-put k v ((i, w) ∷ m) = elim (Bool-cases (eqb i k)) [
  | inl e ↦ rw (e, e) refl
  | inr e ↦ rw (e, e) (ap (λ r. (i, w) ∷ r) (remove-put k v m))
]
