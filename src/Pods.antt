-- ===== src/Pods.antt =====
-- pkg/engine/podevaluator/podcachemanager.go: the pods of each function image, and the choice of the
-- pod that is to evaluate.
pub mod Handlers
pub mod Loop
pub mod Waiting
pub mod Released
pub mod Balance
pub mod Spread
pub mod Redistribution
pub mod Serving
pub mod Accounts
pub mod Conservation
pub mod Pending
pub mod Expected
pub mod Meeting
pub mod Preserved
pub mod Reachable
use porch.Common.{
  ℕ, zero, suc, ◌+◌, ◌-◌, ◌%◌, Bool, Text, List, [], ◌∷◌, Option, none, some, if◌then◌else◌, ◌==◌,
  ltb, eqb, ◌&&◌, length, get_elem?,
}
use porch.Common.Int.{ℤ, pos, ℤ_eq, ℤ_lt}

-- client.ObjectKey
pub record ObjectKey : Type 0 where
  pub namespace : Text
  pub name : Text

unfoldable pub key_eq : ObjectKey → ObjectKey → Bool
key_eq a b = eqb a.namespace b.namespace && eqb a.name b.name

-- podData of a pod that has been created: getFuncEvalPodClient has set all its fields, and `target`
-- is the address of its gRPC connection.
pub record PodData : Type 0 where
  pub image : Text
  pub pod_key : ObjectKey
  pub service_key : ObjectKey
  pub target : Text

-- functionPodInfo; a response channel is a number, and a time is one
pub record Pod : Type 0 where
  pub ready : Option PodData
  pub waitlist : List ℕ
  pub last_activity : ℕ
  pub concurrent : ℕ

-- functionInfo
pub record Function : Type 0 where
  pub pods : List Pod
  pub round_robin : ℕ

-- The loop over the waitlist lengths of findBestPod
unfoldable pub min_load : ℕ → List Pod → ℕ
min_load least [] = least
min_load least (p ∷ ps) = min_load (if ltb p.concurrent least then p.concurrent else least) ps

abbrev pub has_load : ℕ → Option Pod → Bool
has_load least none = Bool.false
has_load least (some p) = p.concurrent == least

-- The round-robin loop of findBestPod, with `rounds` rounds left: the index found
unfoldable pub search_from : List Pod → ℕ → ℕ → ℕ → Option ℕ
search_from pods least zero at = none
search_from pods least (suc rounds) at =
    let rest = search_from pods least rounds (at + 1) in
    let idx = at % length pods in if has_load least (get_elem? pods idx) then some idx else rest

unfoldable pub chosen_pod : Function → ℕ → ℕ → Option ℕ → Option (ℕ × ℕ) × Function
chosen_pod fn n least none = (none, fn)
chosen_pod fn n least (some idx) = (some (idx, least), record fn { round_robin = (idx + 1) % n })

unfoldable pub best_of : Function → List Pod → Option (ℕ × ℕ) × Function
best_of fn [] = (none, fn)
best_of fn (p ∷ ps) =
    let least = min_load p.concurrent ps in
    chosen_pod fn (length fn.pods) least (search_from fn.pods least (length fn.pods) fn.round_robin)

-- The pods when as many evaluations of each as given by its index have ended
unfoldable pub after_ends : (ℕ → ℕ) → List Pod → List Pod
after_ends ended [] = []
after_ends ended (p ∷ ps) =
    record p { concurrent = p.concurrent - ended 0 } ∷ after_ends (λ i. ended (suc i)) ps

abbrev pub later : (ℕ → ℕ) → Function → Function
later ended fn = record fn { pods = after_ends ended fn.pods }

-- findBestPod: the index of the pod and its load, and the function with its next round-robin index.
-- The loads are atomics that other goroutines lower when an evaluation ends, so the second loop may
-- read less than the first: `ended` evaluations have ended in between.
unfoldable pub find_best_pod : (ℕ → ℕ) → Function → Option (ℕ × ℕ) × Function
find_best_pod ended fn = best_of (later ended fn) fn.pods

-- What getParamsForImage returns.
pub record Params : Type 0 where
  pub ttl : ℤ
  pub max_waitlist : ℤ
  pub max_pods : ℤ

-- The fields of PodExecutorConfig that are read; `tags_match` is MatchesAnyConstraint on its tags.
pub record PodExecutor : Type 0 where
  pub time_to_live : ℤ
  pub preferred_max_queue_length : ℤ
  pub max_parallel_executions : ℤ
  pub tags_match : Bool

abbrev or_default : Bool → ℤ → ℤ → ℤ
or_default missing default value = if missing then default else value

-- getParamsForImage, given the default parameters and the executor that the store has for the image
unfoldable pub get_params_for_image : Params → Option PodExecutor → Params
get_params_for_image defaults none = defaults
get_params_for_image defaults (some e) =
    if e.tags_match
    then record {
      ttl = or_default (ℤ_lt e.time_to_live (pos 1)) defaults.ttl e.time_to_live;
      max_waitlist =
          or_default (ℤ_eq e.preferred_max_queue_length (pos 0)) defaults.max_waitlist
            e.preferred_max_queue_length;
      max_pods =
          or_default (ℤ_eq e.max_parallel_executions (pos 0)) defaults.max_pods
            e.max_parallel_executions;
    }
    else defaults

-- functionConfigMap and the defaults
pub record Manager : Type 0 where
  pub defaults : Params
  pub executor_for : Text → Option PodExecutor

unfoldable pub params_for : Manager → Text → Params
params_for m image = get_params_for_image m.defaults (m.executor_for image)
