-- ===== src/Pods/Reachable.antt =====
-- The states that the loop of podCacheManager reaches, with the pods that are being created
-- (pkg/engine/podevaluator/podcachemanager.go).
use porch.Common.{false, ◌≡◌, refl, sym, ◌∙◌, subst, Text, List, ◌∷◌, ◌++◌, is_empty, All}
use porch.Common.Tables.{lookup}
use porch.Pods.{Manager}
use porch.Pods.Handlers.{Cluster}
use porch.Pods.Loop.{
  Message, message_image, function_info, requests, becomes_ready, evicts, ticks, finishes, turn,
}
use porch.Pods.Conservation.{turn-Accounted}
use porch.Pods.Expected.{count, pending_of, gc-Distinct, gc-pending}
use porch.Pods.Meeting.{
  World, Step, serves, creates, drops, collects, ends, Reach, start, next, IsExpecting, All-middle,
  Met, meets,
}
use porch.Pods.Preserved.{
  serves-Distinct, creates-Distinct, serves-expected, creates-expected, evicts-pending,
  ends-pending, evicts-Distinct, ends-Distinct, serves-filled,
}

Step-IsExpecting : (m : Manager) {w w' : World} → Step m w w' → IsExpecting w → IsExpecting w'
unfolding turn
Step-IsExpecting m (serves c image channel w f) h = record {
  settled = (turn-Accounted m c (requests image channel) w.functions h.settled).settled;
  distinct = serves-Distinct m c image channel w.functions h.distinct;
  filled = serves-filled m c image channel w.functions w.starting f h.filled;
  expected = λ j. serves-expected m c image channel w.functions w.starting h.expected j;
}
Step-IsExpecting m (creates c msg w xs ys e) h = record {
  settled = (turn-Accounted m c (becomes_ready msg) w.functions h.settled).settled;
  distinct = creates-Distinct m c msg w xs ys h e;
  filled =
      (All-middle (λ i. is_empty i ≡ false) xs (message_image msg) ys
        (subst (All (λ i. is_empty i ≡ false)) e h.filled)).1;
  expected = λ j. creates-expected m c msg w xs ys h e j;
}
Step-IsExpecting m (drops c image k closed w) h = record {
  settled = (turn-Accounted m c (evicts image k closed) w.functions h.settled).settled;
  distinct = evicts-Distinct m c image k closed w.functions h.distinct;
  filled = h.filled;
  expected = λ j. h.expected j ∙ sym (evicts-pending m c j image k closed w.functions);
}
Step-IsExpecting m (collects c w) h = record {
  settled = (turn-Accounted m c ticks w.functions h.settled).settled;
  distinct = gc-Distinct m c w.functions h.distinct;
  filled = h.filled;
  expected = λ j. h.expected j ∙ sym (gc-pending m c j w.functions h.settled h.distinct);
}
Step-IsExpecting m (ends c image pod w) h = record {
  settled = (turn-Accounted m c (finishes image pod) w.functions h.settled).settled;
  distinct = ends-Distinct m c image pod w.functions h.distinct;
  filled = h.filled;
  expected = λ j. h.expected j ∙ sym (ends-pending m c j image pod w.functions);
}

Reach-IsExpecting : (m : Manager) {w : World} → Reach m w → IsExpecting w
unfolding function_info lookup
Reach-IsExpecting m start = record {
  settled = tt;
  distinct = tt;
  filled = tt;
  expected = λ j. refl;
}
Reach-IsExpecting m (next r s) = Step-IsExpecting m s (Reach-IsExpecting m r)

-- In every state that the loop reaches from an empty cache, when each request names an image, the
-- pods of an image that are not ready are as many as the pods of it that are being created; so the
-- message about any of these finds the function and a pod of it that is not ready, and is never
-- ignored.
pub Reach-Met :
    (m : Manager) (c : Cluster) (msg : Message) {w : World} (xs ys : List Text)
    → Reach m w
    → w.starting ≡ xs ++ message_image msg ∷ ys
    → Met m c msg w.functions
      × (count (message_image msg) w.starting ≡ pending_of (message_image msg) w.functions)
Reach-Met m c msg {w} xs ys r e =
    let h = Reach-IsExpecting m r in (meets m c msg w xs ys h e, h.expected (message_image msg))
