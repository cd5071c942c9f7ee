-- ===== src/Pods/Redistribution.antt =====
-- What redistributeLoad and removeUnhealthyPods do to the waiting requests
-- (pkg/engine/podevaluator/podcachemanager.go).
use porch.Common.{
  ℕ, zero, suc, ◌+◌, ◌<◌, ◌%◌, Bool, true, false, ◌≡◌, refl, sym, ap, ◌∙◌, arith, List, [], ◌∷◌,
  ◌++◌, map, Option, none, some, length, Bool-cases, inl, inr,
}
use porch.Pods.{PodData, Pod, Function, Manager, after_ends, later}
use porch.Pods.Handlers.{
  Effect, respond_error, abandon, Cluster, Found, found, answers, enqueue, change, ready_at,
  deletions, remove_unhealthy_pods, is_removed, delete_found_pod, delete_found_service,
  redistribute_one, redistribute, redistribute_load,
}
use porch.Pods.Loop.{redistributed, failing}
use porch.Pods.Balance.{find_best_pod-IsSearched}
use porch.Pods.Waiting.{
  occurs, occurs-append, released, released-append, released-errors, released-abandoned, waiting,
  AreSettled, Settled, pending, pending_one, waiting-change-enqueue, pending-change-enqueue,
  change-enqueue-AreSettled,
}
use porch.Pods.Spread.{Balanced, endings-Balanced, Spread, missed-Spread, placed-Spread}

pub length-change : (f : Pod → Pod) (i : ℕ) (ps : List Pod) → length (change f i ps) ≡ length ps
unfolding change
length-change f i [] = refl
length-change f zero (p ∷ ps) = refl
length-change f (suc i) (p ∷ ps) = omega (arith, length-change f i ps)

released-delete_pod :
    (d : PodData) (f g : Found)
    → released (delete_found_pod d.pod_key f ++ delete_found_service d.service_key g) ≡ []
unfolding delete_found_pod delete_found_service
released-delete_pod d (found a b c) (found a' b' c') = ground arith
released-delete_pod d (found a b c) g = ground arith
released-delete_pod d f (found a b c) = ground arith
released-delete_pod d f g = ground arith

module _ (m : Manager) (c : Cluster) where
  released-deletions : (r : Option PodData) → released (deletions m c r) ≡ []
  released-deletions none = refl
  released-deletions (some d) =
      released-delete_pod d (c.pod_at d.pod_key) (c.service_at d.service_key)

  -- Only a pod that is ready is removed.
  removed-waitlist :
      (idle : Bool) (p : Pod) (r : Option PodData)
      → is_removed m c idle p r ≡ true
      → Settled r p.waitlist
      → (p.waitlist ≡ []) × (pending_one r ≡ 0)
  unfolding is_removed
  removed-waitlist idle p none h s = cc
  removed-waitlist idle p (some d) h s = (s, refl)

  pub remove-waiting :
      (idle : Bool) (ps : List Pod)
      → AreSettled ps
      → (waiting (remove_unhealthy_pods m c idle ps).0 ≡ waiting ps)
        × (pending (remove_unhealthy_pods m c idle ps).0 ≡ pending ps)
        × (released (remove_unhealthy_pods m c idle ps).1 ≡ [])
        × AreSettled (remove_unhealthy_pods m c idle ps).0
  unfolding remove_unhealthy_pods
  remove-waiting idle [] s = (refl, refl, refl, tt)
  remove-waiting idle (p ∷ ps) s =
      let (w, n, e, t) = remove-waiting idle ps s.1 in
      elim (Bool-cases (is_removed m c idle p p.ready)) [
        | inl h ↦
            let (q, z) = removed-waitlist idle p p.ready h s.0 in
            simp h (
              w ∙ ap (λ (l : List ℕ). l ++ waiting ps) (sym q),
              omega (arith, n, z),
              released-append (deletions m c p.ready) (remove_unhealthy_pods m c idle ps).1
                  ∙ rw (released-deletions p.ready) e,
              t,
            )
        | inr h ↦ simp h (ap (◌++◌ p.waitlist) w, omega (arith, n), e, (s.0, t))
      ]

  -- A request is handed to one of the pods of a function that has some.
  enqueue-Balanced :
      (channel i : ℕ) (ps : List Pod)
      → i < length ps
      → AreSettled ps
      → Balanced ps (change (enqueue channel) i ps) (channel ∷ []) (answers channel (ready_at i ps))
  enqueue-Balanced channel i ps lt s = record {
    counted = λ ch. waiting-change-enqueue channel ch i ps lt;
    settled = change-enqueue-AreSettled channel i ps s;
  }

  redistribute-Spread :
      (channels : List ℕ) (fn : Function)
      → AreSettled fn.pods
      → Spread fn.pods channels (redistribute m c channels fn)
  unfolding redistribute redistribute_one
  redistribute-Spread [] fn s = record {
    counted = λ ch. omega arith;
    settled = s;
    same_pending = refl;
    all_missed = λ h. refl;
  }
  redistribute-Spread (channel ∷ channels) fn s =
      let ended = c.ended (length channels) in
      let ready = later (c.ended_before (length channels)) fn in
      let (w0, n0, t0) = endings-Balanced (c.ended_before (length channels)) fn.pods s in
      let (w, n, t) = endings-Balanced ended ready.pods t0 in
      elim (find_best_pod-IsSearched ended ready) [
        | inl e ↦
            let rest = redistribute-Spread channels (later ended ready) t in
            simp e (
              missed-Spread channel channels fn.pods (after_ends ended ready.pods)
                (redistribute m c channels (later ended ready)) (w ∙ w0) (n ∙ n0) rest)
        | inr (idx, load, e, best) ↦
            let ps = after_ends ended ready.pods in
            let fn1 : Function = record {
              pods = change (enqueue channel) idx ps;
              round_robin = (idx + 1) % length ps;
            } in
            let first = enqueue-Balanced channel idx ps best.within t in
            let rest = redistribute-Spread channels fn1 first.settled in
            simp e (
              placed-Spread channel channels fn.pods ps (change (enqueue channel) idx ps)
                (answers channel (ready_at idx ps)) (redistribute m c channels fn1) (w ∙ w0) first
                (pending-change-enqueue channel idx ps ∙ n ∙ n0) rest)
      ]

  abbrev pub Handled : List Pod → List ℕ → Function × List Effect → Type 0
  Handled ps channels (fn, effects) =
      Balanced ps fn.pods channels effects × (pending fn.pods ≡ pending ps)

  -- The requests that no pod took get an error, or are abandoned.
  failing-Spread :
      (channels : List ℕ) (ps : List Pod) (r : Function × List Effect × List ℕ × Bool)
      → Spread ps channels r
      → Handled ps channels (failing m c channels r)
  failing-Spread channels ps (fn, effects, missed, true) s = (
    record {
      counted = λ ch.
          rw (released-append effects (map abandon missed), released-abandoned missed)
            (omega (arith, s.counted ch, occurs-append ch (released effects) missed));
      settled = s.settled;
    },
    s.same_pending,
  )
  failing-Spread channels ps (fn, effects, missed, false) s = (
    record {
      counted = λ ch.
          rw (released-append effects (map respond_error channels), released-errors channels)
            (omega (
              arith,
              s.counted ch,
              occurs-append ch (released effects) channels,
              ap (occurs ch) (s.all_missed refl),
            ));
      settled = s.settled;
    },
    s.same_pending,
  )

  -- The requests of a pod that could not be created go to the pods that are left, get the error, or are
  -- abandoned.
  pub failing-Handled :
      (channels : List ℕ) (ps : List Pod) (fn : Function)
      → fn.pods ≡ ps
      → AreSettled ps
      → Handled ps channels (failing m c channels (redistributed m c channels fn ps))
  unfolding redistribute_load
  failing-Handled channels [] fn e s = (
    record {
      counted = λ ch. simp (e, released-errors channels) (omega arith);
      settled = simp e tt;
    },
    simp e refl,
  )
  failing-Handled channels (p ∷ ps) fn e s =
      let (w, n, f, t) = remove-waiting false fn.pods (simp e s) in
      let pods = (remove_unhealthy_pods m c false fn.pods).0 in
      let deleted = (remove_unhealthy_pods m c false fn.pods).1 in
      let loop = redistribute m c channels (record fn { pods = pods }) in
      let spread = redistribute-Spread channels (record fn { pods = pods }) t in
      failing-Spread channels (p ∷ ps) (loop.0, deleted ++ loop.1, loop.2, loop.3)
        (record {
          counted = λ ch.
              rw (released-append deleted loop.1, f)
                (omega (
                  arith,
                  spread.counted ch,
                  ap (occurs ch) w,
                  ap (λ qs. occurs ch (waiting qs)) e,
                ));
          settled = spread.settled;
          same_pending = spread.same_pending ∙ n ∙ ap pending e;
          all_missed = spread.all_missed;
        })
