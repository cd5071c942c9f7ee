-- ===== src/Examples/Lifecycle.antt =====
-- Readiness of a revision with two conditions of one type.
use porch.Common.{true, ◌≡◌, refl, Text, codes, List, [], ◌∷◌, eqb}
use porch.Lifecycle.Readiness.{Condition, indexed, package_revision_is_ready}

abbrev ready : Text
ready = codes "Ready"

abbrev conditions : List Condition
conditions =
    record { condition_type = codes "Ready"; status = codes "False" }
    ∷ record { condition_type = codes "Ready"; status = codes "True" }
    ∷ []

is_ready : package_revision_is_ready (ready ∷ []) conditions ≡ true
unfolding package_revision_is_ready indexed eqb
is_ready = refl
