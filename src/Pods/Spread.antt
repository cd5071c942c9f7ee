-- ===== src/Pods/Spread.antt =====
-- What the loop of redistributeLoad does to the waiting requests, round by round
-- (pkg/engine/podevaluator/podcachemanager.go).
use porch.Common.{ℕ, suc, ◌+◌, Bool, true, false, ◌≡◌, refl, ap, ◌∙◌, arith, List, [], ◌∷◌, ◌++◌}
use porch.Pods.{Pod, Function, after_ends}
use porch.Pods.Handlers.{Effect}
use porch.Pods.Waiting.{
  occurs, occurs-append, released, released-append, waiting, AreSettled, pending,
}

-- From the pods `before` to the pods `after`, every request that waited or was received waits, is
-- answered or is abandoned, once, and the pods that are ready keep none waiting.
pub record Balanced (before after : List Pod) (received : List ℕ) (effects : List Effect)
    : Type 0 where
  pub counted :
      (c : ℕ)
      → occurs c (waiting after) + occurs c (released effects)
        ≡ occurs c (waiting before) + occurs c received
  pub settled : AreSettled after

-- Evaluations that end leave the requests where they are.
pub endings-Balanced :
    (ended : ℕ → ℕ) (ps : List Pod)
    → AreSettled ps
    → (waiting (after_ends ended ps) ≡ waiting ps)
      × (pending (after_ends ended ps) ≡ pending ps)
      × AreSettled (after_ends ended ps)
unfolding after_ends
endings-Balanced ended [] s = (refl, refl, tt)
endings-Balanced ended (p ∷ ps) s =
    let (w, n, t) = endings-Balanced (λ i. ended (suc i)) ps s.1 in
    (ap (◌++◌ p.waitlist) w, omega (arith, n), (s.0, t))

-- What a loop over channels does from the pods `before` on
pub record Spread (before : List Pod) (channels : List ℕ)
    (r : Function × List Effect × List ℕ × Bool) : Type 0 where
  pub counted :
      (ch : ℕ)
      → occurs ch (waiting r.0.pods) + occurs ch (released r.1) + occurs ch r.2
        ≡ occurs ch (waiting before) + occurs ch channels
  pub settled : AreSettled r.0.pods
  pub same_pending : pending r.0.pods ≡ pending before
  pub all_missed : r.3 ≡ false → r.2 ≡ channels

-- A round that finds no pod
pub missed-Spread :
    (channel : ℕ) (channels : List ℕ) (before ps : List Pod)
    (r : Function × List Effect × List ℕ × Bool)
    → waiting ps ≡ waiting before
    → pending ps ≡ pending before
    → Spread ps channels r
    → Spread before (channel ∷ channels) (r.0, r.1, channel ∷ r.2, r.3)
missed-Spread channel channels before ps r w n s = record {
  counted = λ ch. omega (
    arith,
    s.counted ch,
    ap (occurs ch) w,
    occurs-append ch (channel ∷ []) r.2,
    occurs-append ch (channel ∷ []) channels,
  );
  settled = s.settled;
  same_pending = s.same_pending ∙ n;
  all_missed = λ h. ap (λ q. channel ∷ q) (s.all_missed h);
}

-- A round that hands the request to a pod
pub placed-Spread :
    (channel : ℕ) (channels : List ℕ) (before ps qs : List Pod) (effects : List Effect)
    (r : Function × List Effect × List ℕ × Bool)
    → waiting ps ≡ waiting before
    → Balanced ps qs (channel ∷ []) effects
    → pending qs ≡ pending before
    → Spread qs channels r
    → Spread before (channel ∷ channels) (r.0, effects ++ r.1, r.2, true)
placed-Spread channel channels before ps qs effects r w b n s = record {
  counted = λ ch. rw (released-append effects r.1) (
      omega (
        arith,
        b.counted ch,
        s.counted ch,
        ap (occurs ch) w,
        occurs-append ch (released effects) (released r.1),
        occurs-append ch (channel ∷ []) channels,
      ));
  settled = s.settled;
  same_pending = s.same_pending ∙ n;
  all_missed = λ h. cc h;
}
