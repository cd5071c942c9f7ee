-- ===== src/Pods/Waiting.antt =====
-- The requests that wait for the pods of a function, and how the changes of the list of pods move
-- them (pkg/engine/podevaluator/podcachemanager.go).
use porch.Common.{
  ℕ, zero, suc, ◌+◌, ◌<◌, ◌≡◌, refl, sym, ap, arith, append_assoc, List, [], ◌∷◌, ◌++◌, map, Option,
  none, some, if◌then◌else◌, ◌==◌, length,
}
use porch.Pods.{PodData, Pod, Manager}
use porch.Pods.Handlers.{
  Effect, respond, respond_error, abandon, respond_premature, Cluster, answers, enqueue, enqueued,
  change, ready_at,
}
use porch.Pods.Loop.{first_pending, first_or, delete_at, waitlist_at, ready_pod}

-- How often a channel occurs in a list.
abbrev pub occurs : ℕ → List ℕ → ℕ
occurs c [] = 0
occurs c (x ∷ xs) = if x == c then suc (occurs c xs) else occurs c xs

pub occurs-append : (c : ℕ) (xs ys : List ℕ) → occurs c (xs ++ ys) ≡ occurs c xs + occurs c ys
occurs-append c [] ys = omega arith
occurs-append c (x ∷ xs) ys = ground (arith, occurs-append c xs ys)

-- The channels that the loop is done with: it has answered them or abandons them.
abbrev pub answers_of : Effect → List ℕ
answers_of (abandon channel) = channel ∷ []
answers_of (respond channel d) = channel ∷ []
answers_of (respond_error channel) = channel ∷ []
answers_of (respond_premature channel) = channel ∷ []
answers_of _ = []

abbrev pub released : List Effect → List ℕ
released [] = []
released (e ∷ es) = answers_of e ++ released es

pub released-append : (xs ys : List Effect) → released (xs ++ ys) ≡ released xs ++ released ys
released-append [] ys = refl
released-append (x ∷ xs) ys =
    rw (released-append xs ys) (sym (append_assoc (answers_of x) (released xs) (released ys)))

-- The channels that wait for some pod.
abbrev pub waiting : List Pod → List ℕ
waiting [] = []
waiting (p ∷ ps) = p.waitlist ++ waiting ps

-- A pod that is ready keeps no request waiting.
abbrev pub Settled : Option PodData → List ℕ → Type 0
Settled none ws = Unit
Settled (some d) ws = ws ≡ []

abbrev pub AreSettled : List Pod → Type 0
AreSettled [] = Unit
AreSettled (p ∷ ps) = Settled p.ready p.waitlist × AreSettled ps

-- The pods that are not ready.
abbrev pub pending_one : Option PodData → ℕ
pending_one none = 1
pending_one (some d) = 0

abbrev pub pending : List Pod → ℕ
pending [] = 0
pending (p ∷ ps) = pending_one p.ready + pending ps

pub occurs-enqueued :
    (c channel : ℕ) (ws : List ℕ) (r : Option PodData)
    → occurs c (enqueued channel ws r) + occurs c (released (answers channel r))
      ≡ occurs c ws + occurs c (channel ∷ [])
occurs-enqueued c channel ws none = ground (arith, occurs-append c ws (channel ∷ []))
occurs-enqueued c channel ws (some d) = ground arith

module _ (channel : ℕ) where
  pub waiting-change-enqueue :
      (c i : ℕ) (ps : List Pod)
      → i < length ps
      → occurs c (waiting (change (enqueue channel) i ps))
          + occurs c (released (answers channel (ready_at i ps)))
        ≡ occurs c (waiting ps) + occurs c (channel ∷ [])
  unfolding change enqueue
  waiting-change-enqueue c i [] h = absurd (omega arith)
  waiting-change-enqueue c zero (p ∷ ps) h = omega (
    arith,
    occurs-append c (enqueued channel p.waitlist p.ready) (waiting ps),
    occurs-append c p.waitlist (waiting ps),
    occurs-enqueued c channel p.waitlist p.ready,
  )
  waiting-change-enqueue c (suc i) (p ∷ ps) h = omega (
    arith,
    occurs-append c p.waitlist (waiting (change (enqueue channel) i ps)),
    occurs-append c p.waitlist (waiting ps),
    waiting-change-enqueue c i ps (omega arith),
  )

  pub pending-change-enqueue :
      (i : ℕ) (ps : List Pod) → pending (change (enqueue channel) i ps) ≡ pending ps
  unfolding change enqueue
  pending-change-enqueue i [] = refl
  pending-change-enqueue zero (p ∷ ps) = refl
  pending-change-enqueue (suc i) (p ∷ ps) = omega (arith, pending-change-enqueue i ps)

  Settled-enqueued :
      (r : Option PodData) (ws : List ℕ) → Settled r ws → Settled r (enqueued channel ws r)
  Settled-enqueued none ws h = tt
  Settled-enqueued (some d) ws h = h

  pub change-enqueue-AreSettled :
      (i : ℕ) (ps : List Pod) → AreSettled ps → AreSettled (change (enqueue channel) i ps)
  unfolding change enqueue
  change-enqueue-AreSettled i [] h = tt
  change-enqueue-AreSettled zero (p ∷ ps) h = (Settled-enqueued p.ready p.waitlist h.0, h.1)
  change-enqueue-AreSettled (suc i) (p ∷ ps) h = (h.0, change-enqueue-AreSettled i ps h.1)

-- Deleting a pod takes its requests from the waiting ones.
pub delete_at-waiting :
    (c i : ℕ) (ps : List Pod)
    → occurs c (waiting (delete_at i ps)) + occurs c (waitlist_at i ps) ≡ occurs c (waiting ps)
unfolding delete_at
delete_at-waiting c i [] = omega arith
delete_at-waiting c zero (p ∷ ps) = omega (arith, occurs-append c p.waitlist (waiting ps))
delete_at-waiting c (suc i) (p ∷ ps) = omega (
  arith,
  occurs-append c p.waitlist (waiting (delete_at i ps)),
  occurs-append c p.waitlist (waiting ps),
  delete_at-waiting c i ps,
)

pub delete_at-pending :
    (i : ℕ) (ps : List Pod)
    → i < length ps
    → pending (delete_at i ps) + pending_one (ready_at i ps) ≡ pending ps
unfolding delete_at
delete_at-pending i [] h = absurd (omega arith)
delete_at-pending zero (p ∷ ps) h = omega arith
delete_at-pending (suc i) (p ∷ ps) h = omega (arith, delete_at-pending i ps (omega arith))

pub delete_at-AreSettled : (i : ℕ) (ps : List Pod) → AreSettled ps → AreSettled (delete_at i ps)
unfolding delete_at
delete_at-AreSettled i [] h = tt
delete_at-AreSettled zero (p ∷ ps) h = h.1
delete_at-AreSettled (suc i) (p ∷ ps) h = (h.0, delete_at-AreSettled i ps h.1)

-- A pod that is ready has no waiting requests.
pub waitlist_at-settled :
    (i : ℕ) (ps : List Pod) (d : PodData)
    → AreSettled ps
    → ready_at i ps ≡ some d
    → waitlist_at i ps ≡ []
waitlist_at-settled i [] d h e = refl
waitlist_at-settled zero (p ∷ ps) d h e = rw e at h.0
waitlist_at-settled (suc i) (p ∷ ps) d h e = waitlist_at-settled i ps d h.1 e

pending_step :
    (p : Pod) (ps : List Pod) (i : ℕ) (r : Option PodData) (f : Option ℕ)
    → p.ready ≡ r
    → ((j : ℕ) → f ≡ some j → (j < length ps) × (ready_at j ps ≡ none))
    → first_or r f ≡ some i
    → (i < length (p ∷ ps)) × (ready_at i (p ∷ ps) ≡ none)
pending_step p ps zero none f e ih h = (omega arith, e)
pending_step p ps (suc i) none f e ih h = cc
pending_step p ps i (some d) none e ih h = cc
pending_step p ps zero (some d) (some j) e ih h = cc
pending_step p ps (suc i) (some d) (some j) e ih h =
    let (lt, none_there) = ih i (ground arith) in (omega arith, none_there)

-- The pod that is found is one that is not ready.
pub first_pending-found :
    (i : ℕ) (ps : List Pod) → first_pending ps ≡ some i → (i < length ps) × (ready_at i ps ≡ none)
unfolding first_pending
first_pending-found i [] h = cc
first_pending-found i (p ∷ ps) h =
    pending_step p ps i p.ready (first_pending ps) refl (λ j. first_pending-found j ps) h

exists_step :
    (r : Option PodData) (ps : List Pod)
    → 0 < pending_one r + pending ps
    → (0 < pending ps → (i : ℕ) × (first_pending ps ≡ some i))
    → (i : ℕ) × (first_or r (first_pending ps) ≡ some i)
exists_step none ps h ih = (0, refl)
exists_step (some d) ps h ih = let (i, e) = ih (omega arith) in (suc i, rw e refl)

-- If some pod is not ready, one is found.
pub first_pending-exists : (ps : List Pod) → 0 < pending ps → (i : ℕ) × (first_pending ps ≡ some i)
unfolding first_pending
first_pending-exists [] h = absurd (omega arith)
first_pending-exists (p ∷ ps) h = exists_step p.ready ps h (first_pending-exists ps)

module _ (c : Cluster) (d : PodData) where
  -- A pod that becomes ready gives up its waiting requests.
  pub ready_pod-waiting :
      (m : Manager) (ch i : ℕ) (ps : List Pod)
      → occurs ch (waiting (change (ready_pod m c d) i ps)) + occurs ch (waitlist_at i ps)
        ≡ occurs ch (waiting ps)
  unfolding change
  ready_pod-waiting m ch i [] = omega arith
  ready_pod-waiting m ch zero (p ∷ ps) = omega (arith, occurs-append ch p.waitlist (waiting ps))
  ready_pod-waiting m ch (suc i) (p ∷ ps) = omega (
    arith,
    occurs-append ch p.waitlist (waiting (change (ready_pod m c d) i ps)),
    occurs-append ch p.waitlist (waiting ps),
    ready_pod-waiting m ch i ps,
  )

  pub ready_pod-pending :
      (m : Manager) (i : ℕ) (ps : List Pod)
      → i < length ps
      → ready_at i ps ≡ none
      → pending (change (ready_pod m c d) i ps) + 1 ≡ pending ps
  unfolding change
  ready_pod-pending m i [] h e = absurd (omega arith)
  ready_pod-pending m zero (p ∷ ps) h e = omega (arith, ap pending_one e)
  ready_pod-pending m (suc i) (p ∷ ps) h e = omega (arith, ready_pod-pending m i ps (omega arith) e)

  pub ready_pod-AreSettled :
      (m : Manager) (i : ℕ) (ps : List Pod)
      → AreSettled ps
      → AreSettled (change (ready_pod m c d) i ps)
  unfolding change
  ready_pod-AreSettled m i [] h = tt
  ready_pod-AreSettled m zero (p ∷ ps) h = (refl, h.1)
  ready_pod-AreSettled m (suc i) (p ∷ ps) h = (h.0, ready_pod-AreSettled m i ps h.1)

pub released-responds :
    (d : PodData) (ws : List ℕ) → released (map (λ channel. respond channel d) ws) ≡ ws
released-responds d [] = refl
released-responds d (w ∷ ws) = ap (λ r. w ∷ r) (released-responds d ws)

pub released-errors : (ws : List ℕ) → released (map respond_error ws) ≡ ws
released-errors [] = refl
released-errors (w ∷ ws) = ap (λ r. w ∷ r) (released-errors ws)

pub released-abandoned : (ws : List ℕ) → released (map abandon ws) ≡ ws
released-abandoned [] = refl
released-abandoned (w ∷ ws) = ap (λ r. w ∷ r) (released-abandoned ws)
