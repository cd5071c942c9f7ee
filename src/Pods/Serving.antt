-- ===== src/Pods/Serving.antt =====
-- Where the handlers of the pod cache leave the requests of one function
-- (pkg/engine/podevaluator/podcachemanager.go).
use porch.Common.{
  ℕ, zero, suc, ◌+◌, ◌<◌, true, false, ◌≡◌, refl, ap, ◌∙◌, arith, Text, List, [], ◌∷◌, ◌++◌, Option,
  none, some, length, Bool-cases, inl, inr,
}
use porch.Pods.{ObjectKey, PodData, Pod, Function, Manager, params_for}
use porch.Pods.Handlers.{
  Effect, Cluster, Found, found, not_found, get_failed, answers, enqueue, change, ready_at,
  new_pod_info, start_pod, close_connection, delete_found_pod, delete_found_service,
}
use porch.Pods.Loop.{
  Message, created, creation_failed, delete_at, waitlist_at, index_of, is_named, next_index,
  should_scale_up, queue_on, serve_request, drop_failed, settle, evict_at, touch, deletion, closing,
}
use porch.Pods.Waiting.{
  occurs, occurs-append, released, released-append, released-responds, waiting, AreSettled,
  waitlist_at-settled, delete_at-waiting, delete_at-AreSettled, ready_pod-waiting,
  ready_pod-AreSettled, waiting-change-enqueue, change-enqueue-AreSettled,
}
use porch.Pods.Balance.{IsSearched}
use porch.Pods.Spread.{Balanced}
use porch.Pods.Redistribution.{failing-Handled}

-- A change of pods that touches neither the waiting requests nor what is ready.
module _ (f g : Pod → Pod) (same_waitlist : (p : Pod) → (f p).waitlist ≡ (g p).waitlist)
    (same_ready : (p : Pod) → (f p).ready ≡ (g p).ready) where
  pub waiting-change : (i : ℕ) (ps : List Pod) → waiting (change f i ps) ≡ waiting (change g i ps)
  unfolding change
  waiting-change i [] = refl
  waiting-change zero (p ∷ ps) = ap (λ (w : List ℕ). w ++ waiting ps) (same_waitlist p)
  waiting-change (suc i) (p ∷ ps) = ap (◌++◌ p.waitlist) (waiting-change i ps)

  pub change-AreSettled :
      (i : ℕ) (ps : List Pod) → AreSettled (change g i ps) → AreSettled (change f i ps)
  unfolding change
  change-AreSettled i [] h = tt
  change-AreSettled zero (p ∷ ps) h = (rw (same_ready p, same_waitlist p) h.0, h.1)
  change-AreSettled (suc i) (p ∷ ps) h = (h.0, change-AreSettled i ps h.1)

pub change_id : (i : ℕ) (ps : List Pod) → change (λ p. p) i ps ≡ ps
unfolding change
change_id i [] = refl
change_id zero (p ∷ ps) = refl
change_id (suc i) (p ∷ ps) = ap (λ r. p ∷ r) (change_id i ps)

new_pod-AreSettled :
    (now channel : ℕ) (ps : List Pod)
    → AreSettled ps
    → AreSettled (ps ++ new_pod_info now (some channel) ∷ [])
unfolding new_pod_info
new_pod-AreSettled now channel [] h = (tt, tt)
new_pod-AreSettled now channel (p ∷ ps) h = (h.0, new_pod-AreSettled now channel ps h.1)

new_pod-waiting :
    (c now channel : ℕ) (ps : List Pod)
    → occurs c (waiting (ps ++ new_pod_info now (some channel) ∷ []))
      ≡ occurs c (waiting ps) + occurs c (channel ∷ [])
unfolding new_pod_info
new_pod-waiting c now channel [] = ground arith
new_pod-waiting c now channel (p ∷ ps) = omega (
  arith,
  new_pod-waiting c now channel ps,
  occurs-append c p.waitlist (waiting (ps ++ new_pod_info now (some channel) ∷ [])),
  occurs-append c p.waitlist (waiting ps),
)

-- What a Get and a deletion add to the effects answers nobody.
released-delete : (k : ObjectKey) (f : Found) → released (delete_found_pod k f) ≡ []
unfolding delete_found_pod
released-delete k (found a b d) = ground arith
released-delete k _ = refl

released-delete_service : (k : ObjectKey) (f : Found) → released (delete_found_service k f) ≡ []
unfolding delete_found_service
released-delete_service k (found a b d) = ground arith
released-delete_service k _ = refl

released-deletion :
    (f : ObjectKey → List Effect)
    → ((k : ObjectKey) → released (f k) ≡ [])
    → (o : Option ObjectKey) → released (deletion f o) ≡ []
released-deletion f h none = refl
released-deletion f h (some k) = h k

pub released-closing : (o : Option ℕ) → released (closing o) ≡ []
released-closing none = refl
released-closing (some k) = refl

named_ready :
    (k : ObjectKey) (r : Option PodData) → is_named k r ≡ true → (d : PodData) × (r ≡ some d)
named_ready k none h = cc
named_ready k (some d) h = (d, refl)

index_step :
    (p : Pod) (ps : List Pod) (i : ℕ) (o : Option ℕ)
    → ((j : ℕ) → o ≡ some j → (d : PodData) × (ready_at j ps ≡ some d))
    → next_index o ≡ some i
    → (d : PodData) × (ready_at i (p ∷ ps) ≡ some d)
index_step p ps i none ih h = cc
index_step p ps zero (some j) ih h = cc
index_step p ps (suc i) (some j) ih h = ih i (ground arith)

pub index_of-found :
    (k : ObjectKey) (i : ℕ) (ps : List Pod)
    → index_of k ps ≡ some i
    → (d : PodData) × (ready_at i ps ≡ some d)
unfolding index_of
index_of-found k i [] h = cc
index_of-found k i (p ∷ ps) h = elim (Bool-cases (is_named k p.ready)) [
  | inl e ↦ let z : 0 ≡ i = ground arith in rw (← z) (named_ready k p.ready e)
  | inr e ↦ index_step p ps i (index_of k ps) (λ j. index_of-found k j ps) (simp e at h)
]

-- Effects that answer nobody may follow.
Balanced-quiet :
    {before after : List Pod} {received : List ℕ} {effects : List Effect} (more : List Effect)
    → released more ≡ []
    → Balanced before after received effects
    → Balanced before after received (effects ++ more)
Balanced-quiet {effects = effects} more e b = record {
  counted = λ ch.
      rw (released-append effects more, e, occurs-append ch (released effects) [])
        (omega (arith, b.counted ch));
  settled = b.settled;
}

module _ (m : Manager) (c : Cluster) where
  scaled-Balanced :
      (channel postfix : ℕ) (image : Text) (ps : List Pod)
      → AreSettled ps
      → Balanced ps
          (ps ++ new_pod_info c.now (some channel) ∷ [])
          (channel ∷ [])
          (start_pod image postfix ∷ [])
  scaled-Balanced channel postfix image ps s = record {
    counted = λ ch. omega (arith, new_pod-waiting ch c.now channel ps);
    settled = new_pod-AreSettled c.now channel ps s;
  }

  queued-Balanced :
      (channel i : ℕ) (ps : List Pod)
      → i < length ps
      → AreSettled ps
      → Balanced ps
          (change (λ p. enqueue channel (touch m c p)) i ps)
          (channel ∷ [])
          (answers channel (ready_at i ps))
  unfolding enqueue
  queued-Balanced channel i ps lt s =
      let f = λ (p : Pod). enqueue channel (touch m c p) in
      let w = waiting-change f (enqueue channel) (λ p. refl) (λ p. refl) i ps in
      record {
        counted = λ ch. rw w (waiting-change-enqueue channel ch i ps lt);
        settled =
            change-AreSettled f (enqueue channel) (λ p. refl) (λ p. refl) i ps
              (change-enqueue-AreSettled channel i ps s);
      }

  -- The request of a function waits for the pod that is chosen, for a new pod, or is answered.
  pub serve-Balanced :
      (image : Text) (channel : ℕ) (fn : Function) (first : List Pod)
      (r : Option (ℕ × ℕ) × Function)
      → AreSettled fn.pods
      → IsSearched fn first r
      → Balanced fn.pods
          (serve_request m c image channel r).0.pods
          (channel ∷ [])
          (serve_request m c image channel r).1
  unfolding serve_request queue_on should_scale_up
  serve-Balanced image channel fn first r s (inl e) =
      simp e (scaled-Balanced channel (length fn.pods + 1) image fn.pods s)
  serve-Balanced image channel fn first r s (inr (idx, load, e, best)) =
      elim (Bool-cases
        (should_scale_up m c (params_for m image) (length fn.pods) (some (idx, load)))) [
          | inl t ↦ simp (e, t) (scaled-Balanced channel (length fn.pods + 1) image fn.pods s)
          | inr t ↦ simp (e, t) (queued-Balanced channel idx fn.pods best.within s)
        ]

  created-Balanced :
      (d : PodData) (i : ℕ) (fn : Function)
      → AreSettled fn.pods
      → Balanced fn.pods (settle m c (created d) i fn).0.pods [] (settle m c (created d) i fn).1
  unfolding settle
  created-Balanced d i fn s = record {
    counted = λ ch.
        rw (released-responds d (waitlist_at i fn.pods))
          (omega (arith, ready_pod-waiting c d m ch i fn.pods));
    settled = ready_pod-AreSettled c d m i fn.pods s;
  }

  dropped-Balanced :
      (i : ℕ) (fn : Function)
      → AreSettled fn.pods
      → Balanced fn.pods (drop_failed m c i fn).0.pods [] (drop_failed m c i fn).1
  unfolding drop_failed
  dropped-Balanced i fn s =
      let ps = delete_at i fn.pods in
      let (b, n) =
        failing-Handled m c (waitlist_at i fn.pods) ps (record fn { pods = ps }) refl
          (delete_at-AreSettled i fn.pods s) in
      record {
        counted = λ ch. omega (arith, b.counted ch, delete_at-waiting ch i fn.pods);
        settled = b.settled;
      }

  failed-Balanced :
      (image : Text) (pod_key service_key : Option ObjectKey) (i : ℕ) (fn : Function)
      → AreSettled fn.pods
      → Balanced fn.pods
          (settle m c (creation_failed image pod_key service_key) i fn).0.pods
          []
          (settle m c (creation_failed image pod_key service_key) i fn).1
  unfolding settle
  failed-Balanced image pod_key service_key i fn s =
      let pods = deletion (λ k. delete_found_pod k (c.pod_at k)) pod_key in
      let services = deletion (λ k. delete_found_service k (c.service_at k)) service_key in
      Balanced-quiet (pods ++ services)
        (released-append pods services
          ∙ rw
              (released-deletion (λ k. delete_found_pod k (c.pod_at k))
                (λ k. released-delete k (c.pod_at k)) pod_key)
              (released-deletion (λ k. delete_found_service k (c.service_at k))
                (λ k. released-delete_service k (c.service_at k)) service_key))
        (dropped-Balanced i fn s)

  pub settle-Balanced :
      (msg : Message) (i : ℕ) (fn : Function)
      → AreSettled fn.pods
      → Balanced fn.pods (settle m c msg i fn).0.pods [] (settle m c msg i fn).1
  settle-Balanced (created d) i fn s = created-Balanced d i fn s
  settle-Balanced (creation_failed image pod_key service_key) i fn s =
      failed-Balanced image pod_key service_key i fn s

  gone-Balanced :
      (i : ℕ) (ps : List Pod) (d : PodData) (effects : List Effect)
      → AreSettled ps
      → ready_at i ps ≡ some d
      → released effects ≡ []
      → Balanced ps (delete_at i ps) [] effects
  gone-Balanced i ps d effects s e q = record {
    counted = λ ch.
        rw q (
          omega
            (arith, delete_at-waiting ch i ps, ap (occurs ch) (waitlist_at-settled i ps d s e)));
    settled = delete_at-AreSettled i ps s;
  }

  kept-Balanced : (ps : List Pod) → AreSettled ps → Balanced ps ps [] []
  kept-Balanced ps s = record { counted = λ ch. omega arith; settled = s }

  pub evict-Balanced :
      (k : ObjectKey) (i : ℕ) (fn : Function) (d : PodData) (f : Found)
      → AreSettled fn.pods
      → ready_at i fn.pods ≡ some d
      → Balanced fn.pods (evict_at m c k i fn f).0.pods [] (evict_at m c k i fn f).1
  unfolding evict_at
  evict-Balanced k i fn d not_found s e =
      gone-Balanced i fn.pods d (close_connection k ∷ []) s e refl
  evict-Balanced k i fn d get_failed s e = kept-Balanced fn.pods s
  evict-Balanced k i fn d (found failed true true) s e =
      gone-Balanced i fn.pods d (close_connection k ∷ delete_found_pod k (found failed true true)) s
        e (released-delete k (found failed true true))
  evict-Balanced k i fn d (found failed false deleting) s e =
      gone-Balanced i fn.pods d
        (close_connection k ∷ delete_found_pod k (found failed false deleting)) s e
        (released-delete k (found failed false deleting))
  evict-Balanced k i fn d (found failed true false) s e = kept-Balanced fn.pods s
