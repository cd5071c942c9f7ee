-- ===== src/Examples/Pods.antt =====
-- Requests for one image: a pod is started, becomes ready, and answers.
use porch.Common.{
  if◌then◌else◌, ◌==◌, ◌≡◌, refl, Text, codes, List, [], ◌∷◌, some, none, true, false, ◌+◌, ℕ, eqb,
}
use porch.Common.Int.{pos}
use porch.Common.Tables.{lookup, insert}
use porch.Pods.{
  PodData, Pod, Manager, find_best_pod, after_ends, best_of, chosen_pod, search_from, min_load,
  key_eq, params_for, get_params_for_image,
}
use porch.Pods.Handlers.{
  respond, start_pod, Cluster, found, new_pod_info, enqueue, change, delete_found_pod,
  delete_found_service, is_removed, is_unhealthy, redistribute, redistribute_load, redistribute_one,
  remove_unhealthy_pods,
}
use porch.Pods.Loop.{
  Event, requests, becomes_ready, created, creation_failed, turns, turn, function_info,
  first_pending, should_scale_up, queue_on, serve_request, handle_request, settle, handle_ready,
  drop_failed, delete_at,
}
use porch.Pods.Accounts.{waiting_all, all_received, AllSettled}
use porch.Pods.Conservation.{turns-Conserved}
use porch.Pods.Released.{answered, abandoned}
use porch.Pods.Waiting.{occurs}
use porch.Pods.Meeting.{World, serves, Reach, start, next, Met}
use porch.Pods.Reachable.{Reach-Met}
use porch.Pods.Expected.{count, pending_of}

abbrev manager : Manager
manager = record {
  defaults = record { ttl = pos 30; max_waitlist = pos 2; max_pods = pos 2 };
  executor_for = λ image. none;
}

abbrev cluster : Cluster
cluster = record {
  pod_at = λ k. found false true false;
  service_at = λ k. found false true false;
  service_target = λ k. codes "svc:9446";
  now = 5;
  ended = λ call pod. 0;
  ended_before = λ call pod. 0;
}

abbrev image : Text
image = codes "set-labels"

abbrev first : PodData
first = record {
  image = image;
  pod_key = record { namespace = codes "fn"; name = codes "p1" };
  service_key = record { namespace = codes "fn"; name = codes "s1" };
  target = codes "svc:9446";
}

abbrev arrivals : List (Cluster × Event)
arrivals =
    (cluster, requests image 1)
    ∷ (cluster, requests image 2)
    ∷ (cluster, requests image 3)
    ∷ (cluster, becomes_ready (created first))
    ∷ (cluster, becomes_ready (creation_failed image none none))
    ∷ []

-- The third request starts a second pod, which fails, and the first pod takes it over.
served :
    (turns manager arrivals []).1
    ≡ start_pod image 1
      ∷ start_pod image 2
      ∷ respond 1 first
      ∷ respond 2 first
      ∷ respond 3 first
      ∷ []
unfolding turns turn handle_request serve_request should_scale_up find_best_pod after_ends best_of
    function_info lookup insert eqb chosen_pod search_from new_pod_info min_load params_for
    get_params_for_image queue_on change enqueue delete_found_pod delete_found_service is_removed
    is_unhealthy redistribute redistribute_load redistribute_one remove_unhealthy_pods delete_at
    drop_failed first_pending handle_ready settle key_eq
served = refl

turns-Conserved_example :
    ((c : ℕ)
      → occurs c (waiting_all (turns manager arrivals []).0)
          + occurs c (answered (turns manager arrivals []).1)
          + occurs c (abandoned (turns manager arrivals []).1)
        ≡ occurs c (all_received arrivals))
    × AllSettled (turns manager arrivals []).0
turns-Conserved_example = turns-Conserved manager arrivals

abbrev loaded : ℕ → Pod
loaded n = record { ready = some first; waitlist = []; last_activity = 0; concurrent = n }

abbrev requested : World
requested = record {
  functions = (handle_request manager cluster image 1 []).0;
  starting = image ∷ [];
}

requested-reached : Reach manager requested
unfolding handle_request serve_request should_scale_up find_best_pod after_ends best_of
    function_info lookup
requested-reached =
    next start (serves cluster image 1 (record { functions = []; starting = [] }) refl)

Reach-Met_example :
    Met manager cluster (created first) requested.functions
    × (count image requested.starting ≡ pending_of image requested.functions)
Reach-Met_example = Reach-Met manager cluster (created first) [] [] requested-reached refl

-- An evaluation ends between the loops of the second search for a pod.
abbrev hasty : Cluster
hasty = record cluster { ended = λ call pod. if call == 0 then 1 else 0 }

-- One of two requests is handed to the pod, and no pod is found for the other one.
passed_over :
    (redistribute manager hasty (7 ∷ 8 ∷ []) (record { pods = loaded 1 ∷ []; round_robin = 0 })).2
    ≡ 8 ∷ []
unfolding redistribute redistribute_one find_best_pod after_ends best_of min_load search_from
    chosen_pod change enqueue
passed_over = refl
