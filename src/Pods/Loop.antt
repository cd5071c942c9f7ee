-- ===== src/Pods/Loop.antt =====
-- The cases of the select statement of podCacheManager
-- (pkg/engine/podevaluator/podcachemanager.go), and its loop over what arrives.
use porch.Common.{
  ℕ, zero, suc, ◌+◌, ◌-◌, Bool, true, false, not, ◌&&◌, ◌||◌, Text, List, [], ◌∷◌, ◌++◌, map,
  Option, none, some, if◌then◌else◌, is_empty, length,
}
use porch.Common.Int.{pos, ℤ_lt}
use porch.Common.Tables.{lookup, insert}
use porch.Pods.{
  ObjectKey, key_eq, PodData, Pod, Function, find_best_pod, Params, Manager, params_for,
}
use porch.Pods.Handlers.{
  Functions, Effect, respond_error, abandon, start_pod, close_connection, close_done, Found, found,
  not_found, get_failed, Cluster, send_response, new_pod_info, answers, enqueue, change, ready_at,
  delete_found_pod, delete_found_service, remove_unhealthy_pods, redistribute_load,
}

-- podReadyResponse: a pod with a connection, or an error with the keys of what was created
pub data Message : Type 0 where
  created : PodData → Message
  creation_failed : (image : Text) → (pod_key service_key : Option ObjectKey) → Message

abbrev pub message_image : Message → Text
message_image (created d) = d.image
message_image (creation_failed image pod_key service_key) = image

-- FunctionInfo
abbrev pub or_new : Option Function → Function
or_new none = record { pods = []; round_robin = 0 }
or_new (some fn) = fn

unfoldable pub function_info : Text → Functions → Function
function_info image functions = or_new (lookup image functions)

abbrev pub next_index : Option ℕ → Option ℕ
next_index none = none
next_index (some i) = some (suc i)

abbrev pub first_or : Option PodData → Option ℕ → Option ℕ
first_or none rest = some 0
first_or (some d) rest = next_index rest

-- The index of the first pod that is not ready
unfoldable pub first_pending : List Pod → Option ℕ
first_pending [] = none
first_pending (p ∷ ps) = first_or p.ready (first_pending ps)

-- slices.Delete of one element
unfoldable pub delete_at : ℕ → List Pod → List Pod
delete_at i [] = []
delete_at zero (p ∷ ps) = ps
delete_at (suc i) (p ∷ ps) = p ∷ delete_at i ps

abbrev pub waitlist_at : ℕ → List Pod → List ℕ
waitlist_at i [] = []
waitlist_at zero (p ∷ ps) = p.waitlist
waitlist_at (suc i) (p ∷ ps) = waitlist_at i ps

-- Is it the pod that an eviction names?
abbrev pub is_named : ObjectKey → Option PodData → Bool
is_named k none = false
is_named k (some d) = key_eq d.pod_key k

unfoldable pub index_of : ObjectKey → List Pod → Option ℕ
index_of k [] = none
index_of k (p ∷ ps) =
    let rest = index_of k ps in if is_named k p.ready then some 0 else next_index rest

abbrev pub deletion {ℓ} : {A : Type ℓ} → (A → List Effect) → Option A → List Effect
deletion f none = []
deletion f (some k) = f k

abbrev pub closing : Option ℕ → List Effect
closing none = []
closing (some channel) = close_done channel ∷ []

module _ (m : Manager) (c : Cluster) where
  -- Is a new pod to be started?
  unfoldable pub should_scale_up : Params → ℕ → Option (ℕ × ℕ) → Bool
  should_scale_up p pods none = true
  should_scale_up p pods (some (idx, load)) =
      not (ℤ_lt (pos load) p.max_waitlist) && ℤ_lt (pos pods) p.max_pods

  abbrev pub touch : Pod → Pod
  touch p = record p { last_activity = c.now }

  unfoldable pub queue_on : ℕ → Function → Option (ℕ × ℕ) → Function × List Effect
  queue_on channel fn none = (fn, [])
  queue_on channel fn (some (idx, load)) = (
    record fn { pods = change (λ p. enqueue channel (touch p)) idx fn.pods },
    answers channel (ready_at idx fn.pods),
  )

  -- The case of connectionRequestCh, on the function of the image
  unfoldable pub serve_request : Text → ℕ → Option (ℕ × ℕ) × Function → Function × List Effect
  serve_request image channel (best, fn) =
      if should_scale_up (params_for m image) (length fn.pods) best
      then (
        record fn { pods = fn.pods ++ new_pod_info c.now (some channel) ∷ [] },
        start_pod image (length fn.pods + 1) ∷ [],
      )
      else queue_on channel fn best

  abbrev pub update : Text → Functions → Function × List Effect → Functions × List Effect
  update image functions (fn, effects) = (insert image fn functions, effects)

  unfoldable pub handle_request : Text → ℕ → Functions → Functions × List Effect
  handle_request image channel functions =
      update image functions
        (serve_request image channel (find_best_pod (c.ended 0) (function_info image functions)))

  -- A pod that could not be created is dropped, and its requests go to the others, or fail if all do;
  -- the ones that no pod was found for are abandoned if others have found one.
  abbrev pub failing : List ℕ → Function × List Effect × List ℕ × Bool → Function × List Effect
  failing channels (fn, effects, missed, true) = (fn, effects ++ map abandon missed)
  failing channels (fn, effects, missed, false) = (fn, effects ++ map respond_error channels)

  abbrev pub redistributed : List ℕ → Function → List Pod → Function × List Effect × List ℕ × Bool
  redistributed channels fn [] = (fn, [], channels, false)
  redistributed channels fn (p ∷ ps) = redistribute_load m c channels fn

  unfoldable pub drop_failed : ℕ → Function → Function × List Effect
  drop_failed i fn =
      let pods = delete_at i fn.pods in
      failing (waitlist_at i fn.pods)
        (redistributed (waitlist_at i fn.pods) (record fn { pods = pods }) pods)

  abbrev pub ready_pod : PodData → Pod → Pod
  ready_pod d p = record p { ready = some d; waitlist = []; last_activity = c.now }

  -- The case of podReadyCh, at the index of the first pending pod
  unfoldable pub settle : Message → ℕ → Function → Function × List Effect
  settle (created d) i fn = (
    record fn { pods = change (ready_pod d) i fn.pods },
    map (λ channel. send_response channel (some d)) (waitlist_at i fn.pods),
  )
  settle (creation_failed image pod_key service_key) i fn =
      let (fn', effects) = drop_failed i fn in
      (
        fn',
        effects
            ++ (deletion (λ k. delete_found_pod k (c.pod_at k)) pod_key
                ++ deletion (λ k. delete_found_service k (c.service_at k)) service_key),
      )

  abbrev pub with_pending : Message → Functions → Function → Option ℕ → Functions × List Effect
  with_pending msg functions fn none = (functions, [])
  with_pending msg functions fn (some i) = update (message_image msg) functions (settle msg i fn)

  abbrev pub with_function : Message → Functions → Option Function → Functions × List Effect
  with_function msg functions none = (functions, [])
  with_function msg functions (some fn) = with_pending msg functions fn (first_pending fn.pods)

  unfoldable pub handle_ready : Message → Functions → Functions × List Effect
  handle_ready msg functions =
      if is_empty (message_image msg)
      then (functions, [])
      else with_function msg functions (lookup (message_image msg) functions)

  -- The case of evictionCh, for the pod found in the cache
  unfoldable pub evict_at : ObjectKey → ℕ → Function → Found → Function × List Effect
  evict_at k i fn not_found = (record fn { pods = delete_at i fn.pods }, close_connection k ∷ [])
  evict_at k i fn get_failed = (fn, [])
  evict_at k i fn (found failed running deleting) =
      if not running || deleting
      then (
        record fn { pods = delete_at i fn.pods },
        close_connection k ∷ delete_found_pod k (found failed running deleting),
      )
      else (fn, [])

  abbrev pub evicted : ObjectKey → Text → Functions → Function → Option ℕ → Functions × List Effect
  evicted k image functions fn none = (functions, [])
  evicted k image functions fn (some i) = update image functions (evict_at k i fn (c.pod_at k))

  abbrev pub evict_from : ObjectKey → Text → Functions → Option Function → Functions × List Effect
  evict_from k image functions none = (functions, [])
  evict_from k image functions (some fn) = evicted k image functions fn (index_of k fn.pods)

  unfoldable pub handle_eviction : Text → ObjectKey → Option ℕ → Functions → Functions × List Effect
  handle_eviction image k done functions =
      let (functions', effects) = evict_from k image functions (lookup image functions) in
      (functions', effects ++ closing done)

  -- garbageCollector: functions without pods are deleted
  abbrev pub keep_function : Text → Function → List Pod → Functions → Functions
  keep_function image fn [] rest = rest
  keep_function image fn (p ∷ ps) rest = (image, record fn { pods = p ∷ ps }) ∷ rest

  unfoldable pub garbage_collector : Functions → Functions × List Effect
  garbage_collector [] = ([], [])
  garbage_collector ((image, fn) ∷ rest) =
      let (pods, effects) = remove_unhealthy_pods m c true fn.pods in
      let (rest', effects') = garbage_collector rest in
      (keep_function image fn pods rest', effects ++ effects')

  abbrev pub evaluated : Pod → Pod
  evaluated p = record p { concurrent = p.concurrent - 1 }

  abbrev pub finished_at : Text → ℕ → Functions → Option Function → Functions
  finished_at image i functions none = functions
  finished_at image i functions (some fn) =
      insert image (record fn { pods = change evaluated i fn.pods }) functions

  -- concurrentEvaluations.Add(-1) of an evaluation that has ended
  unfoldable pub finish_evaluation : Text → ℕ → Functions → Functions
  finish_evaluation image i functions = finished_at image i functions (lookup image functions)

-- What the loop waits for, and the end of an evaluation.
pub data Event : Type 0 where
  requests : (image : Text) → (channel : ℕ) → Event
  becomes_ready : Message → Event
  evicts : (image : Text) → ObjectKey → (done : Option ℕ) → Event
  ticks : Event
  finishes : (image : Text) → (pod : ℕ) → Event

-- One turn of the loop of podCacheManager
unfoldable pub turn : Manager → Cluster → Event → Functions → Functions × List Effect
turn m c (requests image channel) fs = handle_request m c image channel fs
turn m c (becomes_ready msg) fs = handle_ready m c msg fs
turn m c (evicts image k done) fs = handle_eviction m c image k done fs
turn m c ticks fs = garbage_collector m c fs
turn m c (finishes image pod) fs = (finish_evaluation m c image pod fs, [])

-- The turns of the loop, each with the cluster as it is then
unfoldable pub turns : Manager → List (Cluster × Event) → Functions → Functions × List Effect
turns m [] fs = (fs, [])
turns m ((c, e) ∷ es) fs =
    let (fs', effects) = turn m c e fs in
    let (fs'', effects') = turns m es fs' in (fs'', effects ++ effects')
