-- ===== src/Pods/Conservation.antt =====
-- Where the requests of the loop of podCacheManager are
-- (pkg/engine/podevaluator/podcachemanager.go).
use porch.Common.{
  ℕ, ◌+◌, true, ◌≡◌, refl, arith, Text, List, [], ◌∷◌, ◌++◌, Option, none, some, is_empty,
  Bool-cases, Option-cases, inl, inr,
}
use porch.Common.Tables.{lookup, insert}
use porch.Pods.{ObjectKey, Pod, Function, Manager}
use porch.Pods.Handlers.{Functions, Effect, Cluster, change, remove_unhealthy_pods}
use porch.Pods.Loop.{
  Message, function_info, first_pending, index_of, settle, handle_ready, evict_at, evict_from,
  handle_eviction, garbage_collector, keep_function, finish_evaluation, evaluated, Event, requests,
  becomes_ready, evicts, ticks, finishes, turn, turns, closing, message_image,
}
use porch.Pods.Released.{answered, abandoned, occurs-released}
use porch.Pods.Waiting.{occurs, occurs-append, released, released-append, waiting, AreSettled}
use porch.Pods.Spread.{Balanced}
use porch.Pods.Redistribution.{remove-waiting}
use porch.Pods.Serving.{
  waiting-change, change-AreSettled, change_id, released-closing, index_of-found, settle-Balanced,
  evict-Balanced,
}
use porch.Pods.Accounts.{
  waiting_all, AllSettled, function_info-AreSettled, Accounted, update-Accounted, received,
  all_received, unchanged, request-Accounted,
}

module _ (m : Manager) (c : Cluster) where
  -- A handler that changes one function that is there.
  found-Accounted :
      (image : Text) (fs : Functions) (fn : Function) (r : Function × List Effect)
      → AllSettled fs
      → lookup image fs ≡ some fn
      → Balanced fn.pods r.0.pods [] r.1
      → Accounted fs (insert image r.0 fs) [] r.1
  unfolding function_info
  found-Accounted image fs fn r h e b = update-Accounted image fs r.0 [] r.1 h (rw e b)

  pub found-AreSettled :
      (image : Text) (fs : Functions) (fn : Function)
      → AllSettled fs
      → lookup image fs ≡ some fn
      → AreSettled fn.pods
  unfolding function_info
  found-AreSettled image fs fn h e = rw e at (function_info-AreSettled image fs h)

  ready-Accounted :
      (msg : Message) (fs : Functions)
      → AllSettled fs
      → Accounted fs (handle_ready m c msg fs).0 [] (handle_ready m c msg fs).1
  unfolding handle_ready
  ready-Accounted msg fs h = elim (Bool-cases (is_empty (message_image msg))) [
    | inl e ↦ simp e (unchanged fs h)
    | inr e ↦ simp e (elim (Option-cases (lookup (message_image msg) fs)) [
      | inl l ↦ simp l (unchanged fs h)
      | inr (fn, l) ↦ simp l (elim (Option-cases (first_pending fn.pods)) [
        | inl p ↦ simp p (unchanged fs h)
        | inr (i, p) ↦ simp p (
            found-Accounted (message_image msg) fs fn (settle m c msg i fn) h l
              (settle-Balanced m c msg i fn (found-AreSettled (message_image msg) fs fn h l)))
      ])
    ])
  ]

  evicted-Accounted :
      (k : ObjectKey) (image : Text) (fs : Functions) (o : Option Function)
      → lookup image fs ≡ o
      → AllSettled fs
      → Accounted fs (evict_from m c k image fs o).0 [] (evict_from m c k image fs o).1
  evicted-Accounted k image fs none l h = unchanged fs h
  evicted-Accounted k image fs (some fn) l h = elim (Option-cases (index_of k fn.pods)) [
    | inl e ↦ simp e (unchanged fs h)
    | inr (i, e) ↦
        let (d, r) = index_of-found k i fn.pods e in
        simp e (
          found-Accounted image fs fn (evict_at m c k i fn (c.pod_at k)) h l
            (evict-Balanced m c k i fn d (c.pod_at k) (found-AreSettled image fs fn h l) r))
  ]

  eviction-Accounted :
      (image : Text) (k : ObjectKey) (done : Option ℕ) (fs : Functions)
      → AllSettled fs
      → Accounted fs
          (handle_eviction m c image k done fs).0
          []
          (handle_eviction m c image k done fs).1
  unfolding handle_eviction
  eviction-Accounted image k done fs h =
      let r = evict_from m c k image fs (lookup image fs) in
      let a = evicted-Accounted k image fs (lookup image fs) refl h in
      record {
        counted = λ ch.
            rw
              (
                released-append r.1 (closing done),
                released-closing done,
                occurs-append ch (released r.1) [],
              )
              (omega (arith, a.counted ch));
        settled = a.settled;
      }

  keep-waiting :
      (image : Text) (fn : Function) (ps : List Pod) (fs : Functions)
      → waiting_all (keep_function m c image fn ps fs) ≡ waiting ps ++ waiting_all fs
  keep-waiting image fn [] fs = refl
  keep-waiting image fn (p ∷ ps) fs = refl

  keep-AllSettled :
      (image : Text) (fn : Function) (ps : List Pod) (fs : Functions)
      → AreSettled ps
      → AllSettled fs
      → AllSettled (keep_function m c image fn ps fs)
  keep-AllSettled image fn [] fs s h = h
  keep-AllSettled image fn (p ∷ ps) fs s h = (s, h)

  gc-Accounted :
      (fs : Functions)
      → AllSettled fs
      → Accounted fs (garbage_collector m c fs).0 [] (garbage_collector m c fs).1
  unfolding garbage_collector
  gc-Accounted [] h = unchanged [] h
  gc-Accounted ((image, fn) ∷ fs) h =
      let a = gc-Accounted fs h.1 in
      let (w, n, q, s) = remove-waiting m c true fn.pods h.0 in
      let ps = (remove_unhealthy_pods m c true fn.pods).0 in
      let rest = (garbage_collector m c fs).0 in
      record {
        counted = λ ch.
            rw
              (
                keep-waiting image fn ps rest,
                released-append (remove_unhealthy_pods m c true fn.pods).1
                    (garbage_collector m c fs).1,
                w,
                q,
                occurs-append ch (waiting fn.pods) (waiting_all rest),
                occurs-append ch (waiting fn.pods) (waiting_all fs),
              )
              (omega (arith, a.counted ch));
        settled = keep-AllSettled image fn ps rest s a.settled;
      }

  finished-Balanced :
      (i : ℕ) (ps : List Pod) → AreSettled ps → Balanced ps (change (evaluated m c) i ps) [] []
  finished-Balanced i ps s = record {
    counted = λ ch.
        rw (waiting-change (evaluated m c) (λ p. p) (λ p. refl) (λ p. refl) i ps, change_id i ps)
          (omega arith);
    settled =
        change-AreSettled (evaluated m c) (λ p. p) (λ p. refl) (λ p. refl) i ps
          (rw (change_id i ps) s);
  }

  finish-Accounted :
      (image : Text) (i : ℕ) (fs : Functions)
      → AllSettled fs
      → Accounted fs (finish_evaluation m c image i fs) [] []
  unfolding finish_evaluation
  finish-Accounted image i fs h = elim (Option-cases (lookup image fs)) [
    | inl l ↦ simp l (unchanged fs h)
    | inr (fn, l) ↦ simp l (
        found-Accounted image fs fn (record fn { pods = change (evaluated m c) i fn.pods }, []) h l
          (finished-Balanced i fn.pods (found-AreSettled image fs fn h l)))
  ]

  pub turn-Accounted :
      (e : Event) (fs : Functions)
      → AllSettled fs
      → Accounted fs (turn m c e fs).0 (received e) (turn m c e fs).1
  unfolding turn
  turn-Accounted (requests image channel) fs h = request-Accounted m c image channel fs h
  turn-Accounted (becomes_ready msg) fs h = ready-Accounted msg fs h
  turn-Accounted (evicts image k done) fs h = eviction-Accounted image k done fs h
  turn-Accounted ticks fs h = gc-Accounted fs h
  turn-Accounted (finishes image pod) fs h = finish-Accounted image pod fs h

turns-Accounted :
    (m : Manager) (es : List (Cluster × Event)) (fs : Functions)
    → AllSettled fs
    → Accounted fs (turns m es fs).0 (all_received es) (turns m es fs).1
unfolding turns
turns-Accounted m [] fs h = unchanged fs h
turns-Accounted m ((c, e) ∷ es) fs h =
    let a = turn-Accounted m c e fs h in
    let b = turns-Accounted m es (turn m c e fs).0 a.settled in
    record {
      counted = λ ch.
          rw
            (
              released-append (turn m c e fs).1 (turns m es (turn m c e fs).0).1,
              occurs-append ch (released (turn m c e fs).1)
                  (released (turns m es (turn m c e fs).0).1),
              occurs-append ch (received e) (all_received es),
            )
            (omega (arith, a.counted ch, b.counted ch));
      settled = b.settled;
    }

-- Whatever arrives at the loop of the pod cache, from its start on, and whenever evaluations end, each
-- response channel is exactly as often among the waiting requests, answered, or abandoned by
-- redistributeLoad where findBestPod finds no pod for it, as requests with it were received: no request
-- is lost in another way and none is answered twice, also when pods fail, are evicted or are collected.
-- A pod that is ready keeps no request waiting.
pub turns-Conserved :
    (m : Manager) (es : List (Cluster × Event))
    → ((c : ℕ)
        → occurs c (waiting_all (turns m es []).0)
            + occurs c (answered (turns m es []).1)
            + occurs c (abandoned (turns m es []).1)
          ≡ occurs c (all_received es))
      × AllSettled (turns m es []).0
turns-Conserved m es =
    let a = turns-Accounted m es [] tt in
    (λ c. omega (arith, a.counted c, occurs-released c (turns m es []).1), a.settled)
