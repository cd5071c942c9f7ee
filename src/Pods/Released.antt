-- ===== src/Pods/Released.antt =====
-- The channels that are answered, and those that are abandoned
-- (pkg/engine/podevaluator/podcachemanager.go).
use porch.Common.{ℕ, ◌+◌, ◌≡◌, refl, arith, List, [], ◌∷◌, ◌++◌}
use porch.Pods.Handlers.{
  Effect, respond, respond_error, abandon, start_pod, delete_pod, delete_service, close_connection,
  close_done, respond_premature,
}
use porch.Pods.Waiting.{occurs, occurs-append, answers_of, released}

abbrev pub abandons_of : Effect → List ℕ
abandons_of (abandon channel) = channel ∷ []
abandons_of _ = []

-- The channels that are abandoned
abbrev pub abandoned : List Effect → List ℕ
abandoned [] = []
abandoned (e ∷ es) = abandons_of e ++ abandoned es

abbrev pub responds_of : Effect → List ℕ
responds_of (respond channel d) = channel ∷ []
responds_of (respond_error channel) = channel ∷ []
responds_of (respond_premature channel) = channel ∷ []
responds_of _ = []

-- The channels that are answered
abbrev pub answered : List Effect → List ℕ
answered [] = []
answered (e ∷ es) = responds_of e ++ answered es

one_released :
    (c : ℕ) (e : Effect)
    → occurs c (answers_of e) ≡ occurs c (responds_of e) + occurs c (abandons_of e)
one_released c (respond channel d) = ground arith
one_released c (respond_error channel) = ground arith
one_released c (respond_premature channel) = ground arith
one_released c (abandon channel) = ground arith
one_released c (start_pod image postfix) = refl
one_released c (delete_pod k) = refl
one_released c (delete_service k) = refl
one_released c (close_connection k) = refl
one_released c (close_done channel) = refl

pub occurs-released :
    (c : ℕ) (es : List Effect)
    → occurs c (released es) ≡ occurs c (answered es) + occurs c (abandoned es)
occurs-released c [] = refl
occurs-released c (e ∷ es) = omega (
  arith,
  one_released c e,
  occurs-released c es,
  occurs-append c (answers_of e) (released es),
  occurs-append c (responds_of e) (answered es),
  occurs-append c (abandons_of e) (abandoned es),
)
