-- ===== src/Pods/Handlers.antt =====
-- The cases of the loop of podCacheManager (pkg/engine/podevaluator/podcachemanager.go). The loop runs
-- in one goroutine, so each case is a function from the functions to the functions, and the effects
-- that it has on channels and in the cluster are listed in their order.
use porch.Common.{
  ℕ, zero, suc, ◌+◌, ◌-◌, Bool, true, false, not, ◌&&◌, ◌||◌, Text, List, [], ◌∷◌, ◌++◌, Option,
  none, some, if◌then◌else◌, ◌==◌, eqb, length,
}
use porch.Common.Int.{pos, ℤ_lt}
use porch.Pods.{ObjectKey, PodData, Pod, Function, later, find_best_pod, Manager, params_for}

abbrev pub Functions : Type 0
Functions = List (Text × Function)

pub data Effect : Type 0 where
  respond : (channel : ℕ) → PodData → Effect
  respond_error respond_premature : (channel : ℕ) → Effect
  -- The loop goes on without the channel, and nobody answers it.
  abandon : (channel : ℕ) → Effect
  start_pod : (image : Text) → (postfix : ℕ) → Effect
  delete_pod delete_service : ObjectKey → Effect
  close_connection : ObjectKey → Effect
  close_done : (channel : ℕ) → Effect

-- What a Get of a pod or of a service gives.
pub data Found : Type 0 where
  found : (failed running deleting : Bool) → Found
  not_found get_failed : Found

-- The Kubernetes API, the clock, and the DNS name of a service with its port. `ended` says how many
-- evaluations of a pod end between the two loops of a call of findBestPod, by the number of the call and
-- the index of the pod, and `ended_before` how many end in redistributeLoad before the call.
pub record Cluster : Type 0 where
  pub pod_at : ObjectKey → Found
  pub service_at : ObjectKey → Found
  pub service_target : ObjectKey → Text
  pub now : ℕ
  pub ended : ℕ → ℕ → ℕ
  pub ended_before : ℕ → ℕ → ℕ

-- SendResponse of a pod with no error
abbrev pub send_response : ℕ → Option PodData → Effect
send_response channel none = respond_premature channel
send_response channel (some d) = respond channel d

-- NewPodInfo
unfoldable pub new_pod_info : ℕ → Option ℕ → Pod
new_pod_info now none = record { ready = none; waitlist = []; last_activity = now; concurrent = 0 }
new_pod_info now (some channel) = record {
  ready = none;
  waitlist = channel ∷ [];
  last_activity = now;
  concurrent = 1;
}

-- Hand a request to a pod: a pod that is ready answers at once, and the others keep it waiting.
abbrev pub enqueued : ℕ → List ℕ → Option PodData → List ℕ
enqueued channel waiting none = waiting ++ channel ∷ []
enqueued channel waiting (some d) = waiting

abbrev pub answers : ℕ → Option PodData → List Effect
answers channel none = []
answers channel (some d) = send_response channel (some d) ∷ []

unfoldable pub enqueue : ℕ → Pod → Pod
enqueue channel p = record p {
  concurrent = p.concurrent + 1;
  waitlist = enqueued channel p.waitlist p.ready;
}

-- Change the pod at an index.
unfoldable pub change : (Pod → Pod) → ℕ → List Pod → List Pod
change f i [] = []
change f zero (p ∷ ps) = f p ∷ ps
change f (suc i) (p ∷ ps) = p ∷ change f i ps

abbrev pub ready_at : ℕ → List Pod → Option PodData
ready_at i [] = none
ready_at zero (p ∷ ps) = p.ready
ready_at (suc i) (p ∷ ps) = ready_at i ps

unfoldable pub delete_found_pod : ObjectKey → Found → List Effect
delete_found_pod k (found failed running deleting) = if deleting then [] else delete_pod k ∷ []
delete_found_pod k _ = []

unfoldable pub delete_found_service : ObjectKey → Found → List Effect
delete_found_service k (found failed running deleting) =
    if deleting then [] else delete_service k ∷ []
delete_found_service k _ = []

abbrev pub is_failed : Found → Bool
is_failed (found failed running deleting) = failed
is_failed _ = true

abbrev pub is_missing : Found → Bool
is_missing (found failed running deleting) = false
is_missing _ = true

module _ (m : Manager) (c : Cluster) where
  -- The conditions of removeUnhealthyPods for a pod that is ready
  unfoldable pub is_unhealthy : Bool → PodData → Pod → Bool
  is_unhealthy remove_idle d p =
      is_failed (c.pod_at d.pod_key)
      || (is_missing (c.service_at d.service_key)
          || (not (eqb (c.service_target d.service_key) d.target)
              || (remove_idle
                  && (p.concurrent == 0
                      && ℤ_lt (params_for m d.image).ttl (pos (c.now - p.last_activity))))))

  unfoldable pub is_removed : Bool → Pod → Option PodData → Bool
  is_removed remove_idle p none = false
  is_removed remove_idle p (some d) = is_unhealthy remove_idle d p

  abbrev pub deletions : Option PodData → List Effect
  deletions none = []
  deletions (some d) =
      delete_found_pod d.pod_key (c.pod_at d.pod_key)
      ++ delete_found_service d.service_key (c.service_at d.service_key)

  -- removeUnhealthyPods: the pods that stay, and the deletions
  unfoldable pub remove_unhealthy_pods : Bool → List Pod → List Pod × List Effect
  remove_unhealthy_pods remove_idle [] = ([], [])
  remove_unhealthy_pods remove_idle (p ∷ ps) =
      let (rest, effects) = remove_unhealthy_pods remove_idle ps in
      if is_removed remove_idle p p.ready
      then (rest, deletions p.ready ++ effects)
      else (p ∷ rest, effects)

  -- One round of the loop of redistributeLoad: the channel where findBestPod finds no pod, and whether
  -- it finds one
  unfoldable pub redistribute_one :
      ℕ → Option (ℕ × ℕ) × Function → Function × List Effect × List ℕ × Bool
  redistribute_one channel (none, fn) = (fn, [], channel ∷ [], false)
  redistribute_one channel (some (idx, load), fn) = (
    record fn { pods = change (enqueue channel) idx fn.pods },
    answers channel (ready_at idx fn.pods),
    [],
    true,
  )

  unfoldable pub redistribute : List ℕ → Function → Function × List Effect × List ℕ × Bool
  redistribute [] fn = (fn, [], [], false)
  redistribute (channel ∷ channels) fn =
      let (fn1, effects1, missed1, done1) =
        redistribute_one channel (
          find_best_pod (c.ended (length channels))
            (later (c.ended_before (length channels)) fn)) in
      let (fn2, effects2, missed2, done2) = redistribute channels fn1 in
      (fn2, effects1 ++ effects2, missed1 ++ missed2, done1 || done2)

  -- redistributeLoad: also the channels that no pod was found for, which it passes over
  unfoldable pub redistribute_load : List ℕ → Function → Function × List Effect × List ℕ × Bool
  redistribute_load channels fn =
      let (pods, effects) = remove_unhealthy_pods false fn.pods in
      let (fn', effects', missed, done) = redistribute channels (record fn { pods = pods }) in
      (fn', effects ++ effects', missed, done)
