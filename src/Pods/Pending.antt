-- ===== src/Pods/Pending.antt =====
-- The pods of one function that are being created, under the handlers of the pod cache
-- (pkg/engine/podevaluator/podcachemanager.go).
use porch.Common.{
  ◌∙◌, ℕ, zero, suc, ◌<◌, true, false, ◌≡◌, ◌⊎◌, refl, ap, arith, Text, List, [], ◌∷◌, ◌++◌, Option,
  none, some, length, Bool-cases, inl, inr,
}
use porch.Pods.{ObjectKey, PodData, Pod, Function, Manager, params_for}
use porch.Pods.Handlers.{
  Effect, start_pod, Cluster, Found, found, not_found, get_failed, enqueue, change, ready_at,
  new_pod_info, answers,
}
use porch.Pods.Loop.{
  Message, created, creation_failed, first_pending, delete_at, waitlist_at, should_scale_up,
  queue_on, serve_request, drop_failed, settle, evict_at, touch, evaluated,
}
use porch.Pods.Waiting.{
  AreSettled, pending, pending_one, first_pending-found, ready_pod-pending, delete_at-pending,
  delete_at-AreSettled,
}
use porch.Pods.Balance.{IsSearched, find_best_pod-IsSearched}
use porch.Pods.{after_ends, later, find_best_pod}
use porch.Pods.Redistribution.{failing-Handled}

-- The pods that an effect starts.
abbrev pub start_of : Effect → List Text
start_of (start_pod image postfix) = image ∷ []
start_of _ = []

abbrev pub starts : List Effect → List Text
starts [] = []
starts (e ∷ es) = start_of e ++ starts es

pending-snoc :
    (now channel : ℕ) (ps : List Pod)
    → pending (ps ++ new_pod_info now (some channel) ∷ []) ≡ suc (pending ps)
unfolding new_pod_info
pending-snoc now channel [] = refl
pending-snoc now channel (p ∷ ps) = omega (arith, pending-snoc now channel ps)

pub pending-change :
    (f : Pod → Pod)
    → ((p : Pod) → (f p).ready ≡ p.ready)
    → (i : ℕ) (ps : List Pod) → pending (change f i ps) ≡ pending ps
unfolding change
pending-change f same i [] = refl
pending-change f same zero (p ∷ ps) = rw (same p) refl
pending-change f same (suc i) (p ∷ ps) = omega (arith, pending-change f same i ps)

starts-answers : (channel : ℕ) (r : Option PodData) → starts (answers channel r) ≡ []
starts-answers channel none = refl
starts-answers channel (some d) = refl

module _ (m : Manager) (c : Cluster) where
  -- A request starts at most one pod, which is then pending, of its own image.
  abbrev pub Started : Text → Function → Function × List Effect → Type 0
  Started image fn (fn', effects) =
      ((starts effects ≡ []) × (pending fn'.pods ≡ pending fn.pods))
      ⊎ ((starts effects ≡ image ∷ []) × (pending fn'.pods ≡ suc (pending fn.pods)))

  starts-queued : (channel i : ℕ) (ps : List Pod) → starts (answers channel (ready_at i ps)) ≡ []
  starts-queued channel i [] = refl
  starts-queued channel zero (p ∷ ps) = starts-answers channel p.ready
  starts-queued channel (suc i) (p ∷ ps) = starts-queued channel i ps

  serve-Started :
      (image : Text) (channel : ℕ) (fn : Function) (first : List Pod)
      (r : Option (ℕ × ℕ) × Function)
      → IsSearched fn first r
      → Started image fn (serve_request m c image channel r)
  unfolding serve_request should_scale_up queue_on enqueue
  serve-Started image channel fn first r (inl e) =
      simp e (inr (refl, pending-snoc c.now channel fn.pods))
  serve-Started image channel fn first r (inr (idx, load, e, best)) =
      elim (Bool-cases
        (should_scale_up m c (params_for m image) (length fn.pods) (some (idx, load)))) [
          | inl t ↦ simp (e, t) (inr (refl, pending-snoc c.now channel fn.pods))
          | inr t ↦
              simp (e, t)
                (inl (
                  starts-queued channel idx fn.pods,
                  pending-change (λ p. enqueue channel (touch m c p)) (λ p. refl) idx fn.pods,
                ))
        ]

  ends-pending : (ended : ℕ → ℕ) (ps : List Pod) → pending (after_ends ended ps) ≡ pending ps
  unfolding after_ends
  ends-pending ended [] = refl
  ends-pending ended (p ∷ ps) = omega (arith, ends-pending (λ i. ended (suc i)) ps)

  pub request-Started :
      (image : Text) (channel : ℕ) (fn : Function)
      → Started image fn (serve_request m c image channel (find_best_pod (c.ended 0) fn))
  request-Started image channel fn =
      let n = ends-pending (c.ended 0) fn.pods in
      elim (serve-Started image channel (later (c.ended 0) fn) fn.pods
        (find_best_pod (c.ended 0) fn) (find_best_pod-IsSearched (c.ended 0) fn)) [
          | inl (e, k) ↦ inl (e, k ∙ n)
          | inr (e, k) ↦ inr (e, k ∙ ap suc n)
        ]

  -- A message about the first pending pod leaves one pending pod less.
  pub settle-pending :
      (msg : Message) (i : ℕ) (fn : Function)
      → AreSettled fn.pods
      → first_pending fn.pods ≡ some i
      → suc (pending (settle m c msg i fn).0.pods) ≡ pending fn.pods
  unfolding settle drop_failed
  settle-pending (created d) i fn s h =
      let (lt, e) = first_pending-found i fn.pods h in
      omega (arith, ready_pod-pending c d m i fn.pods lt e)
  settle-pending (creation_failed image pod_key service_key) i fn s h =
      let (lt, e) = first_pending-found i fn.pods h in
      let ps = delete_at i fn.pods in
      let (b, n) =
        failing-Handled m c (waitlist_at i fn.pods) ps (record fn { pods = ps }) refl
          (delete_at-AreSettled i fn.pods s) in
      omega (arith, n, delete_at-pending i fn.pods lt, ap pending_one e)

  pub evict-pending :
      (k : ObjectKey) (i : ℕ) (fn : Function) (d : PodData) (f : Found)
      → i < length fn.pods
      → ready_at i fn.pods ≡ some d
      → pending (evict_at m c k i fn f).0.pods ≡ pending fn.pods
  unfolding evict_at
  evict-pending k i fn d not_found lt e =
      omega (arith, delete_at-pending i fn.pods lt, ap pending_one e)
  evict-pending k i fn d get_failed lt e = refl
  evict-pending k i fn d (found failed true false) lt e = refl
  evict-pending k i fn d (found failed true true) lt e =
      omega (arith, delete_at-pending i fn.pods lt, ap pending_one e)
  evict-pending k i fn d (found failed false deleting) lt e =
      omega (arith, delete_at-pending i fn.pods lt, ap pending_one e)

  pub evaluated-pending :
      (i : ℕ) (ps : List Pod) → pending (change (evaluated m c) i ps) ≡ pending ps
  evaluated-pending i ps = pending-change (evaluated m c) (λ p. refl) i ps
