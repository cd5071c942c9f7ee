-- ===== src/Pods/Accounts.antt =====
-- Where the requests of the loop of podCacheManager are: waiting, answered or abandoned
-- (pkg/engine/podevaluator/podcachemanager.go).
use porch.Common.{ap, ℕ, ◌+◌, ◌≡◌, arith, Text, List, [], ◌∷◌, ◌++◌, eqb, Bool-cases, inl, inr}
use porch.Common.Tables.{lookup, insert}
use porch.Pods.{Function, Manager, later, find_best_pod}
use porch.Pods.Handlers.{Functions, Effect, Cluster}
use porch.Pods.Loop.{function_info, serve_request, handle_request, Event, requests}
use porch.Pods.Waiting.{occurs, occurs-append, released, waiting, AreSettled}
use porch.Pods.Balance.{find_best_pod-IsSearched}
use porch.Pods.Spread.{Balanced, endings-Balanced}
use porch.Pods.Serving.{serve-Balanced}

abbrev pub waiting_all : Functions → List ℕ
waiting_all [] = []
waiting_all ((image, fn) ∷ fs) = waiting fn.pods ++ waiting_all fs

abbrev pub AllSettled : Functions → Type 0
AllSettled [] = Unit
AllSettled ((image, fn) ∷ fs) = AreSettled fn.pods × AllSettled fs

insert-waiting :
    (c : ℕ) (k : Text) (fn : Function) (fs : Functions)
    → occurs c (waiting_all (insert k fn fs)) + occurs c (waiting (function_info k fs).pods)
      ≡ occurs c (waiting_all fs) + occurs c (waiting fn.pods)
unfolding insert lookup function_info
insert-waiting c k fn [] = ground (arith, occurs-append c (waiting fn.pods) [])
insert-waiting c k fn ((j, g) ∷ fs) = elim (Bool-cases (eqb j k)) [
  | inl e ↦ simp e (
      omega (
        arith,
        occurs-append c (waiting fn.pods) (waiting_all fs),
        occurs-append c (waiting g.pods) (waiting_all fs),
      ))
  | inr e ↦ simp e (
      omega (
        arith,
        insert-waiting c k fn fs,
        occurs-append c (waiting g.pods) (waiting_all (insert k fn fs)),
        occurs-append c (waiting g.pods) (waiting_all fs),
      ))
]

insert-AllSettled :
    (k : Text) (fn : Function) (fs : Functions)
    → AllSettled fs
    → AreSettled fn.pods
    → AllSettled (insert k fn fs)
unfolding insert
insert-AllSettled k fn [] h s = (s, tt)
insert-AllSettled k fn ((j, g) ∷ fs) h s = elim (Bool-cases (eqb j k)) [
  | inl e ↦ simp e (s, h.1)
  | inr e ↦ simp e (h.0, insert-AllSettled k fn fs h.1 s)
]

pub function_info-AreSettled :
    (k : Text) (fs : Functions) → AllSettled fs → AreSettled (function_info k fs).pods
unfolding function_info lookup
function_info-AreSettled k [] h = tt
function_info-AreSettled k ((j, g) ∷ fs) h = elim (Bool-cases (eqb j k)) [
  | inl e ↦ simp e h.0
  | inr e ↦ simp e (function_info-AreSettled k fs h.1)
]

-- The same for the whole state.
pub record Accounted (before after : Functions) (received : List ℕ) (effects : List Effect)
    : Type 0 where
  pub counted :
      (c : ℕ)
      → occurs c (waiting_all after) + occurs c (released effects)
        ≡ occurs c (waiting_all before) + occurs c received
  pub settled : AllSettled after

-- A change of one function.
pub update-Accounted :
    (k : Text) (fs : Functions) (fn : Function) (received : List ℕ) (effects : List Effect)
    → AllSettled fs
    → Balanced (function_info k fs).pods fn.pods received effects
    → Accounted fs (insert k fn fs) received effects
update-Accounted k fs fn received effects h b = record {
  counted = λ c. omega (arith, insert-waiting c k fn fs, b.counted c);
  settled = insert-AllSettled k fn fs h b.settled;
}

-- The channel of a request.
abbrev pub received : Event → List ℕ
received (requests image channel) = channel ∷ []
received _ = []

abbrev pub all_received : List (Cluster × Event) → List ℕ
all_received [] = []
all_received ((c, e) ∷ es) = received e ++ all_received es

pub unchanged : (fs : Functions) → AllSettled fs → Accounted fs fs [] []
unchanged fs h = record { counted = λ c. omega arith; settled = h }

module _ (m : Manager) (c : Cluster) where
  pub request-Accounted :
      (image : Text) (channel : ℕ) (fs : Functions)
      → AllSettled fs
      → Accounted fs
          (handle_request m c image channel fs).0
          (channel ∷ [])
          (handle_request m c image channel fs).1
  unfolding handle_request
  request-Accounted image channel fs h =
      let fn = function_info image fs in
      let s = function_info-AreSettled image fs h in
      let best = find_best_pod (c.ended 0) fn in
      let (w, n, t) = endings-Balanced (c.ended 0) fn.pods s in
      let r = serve_request m c image channel best in
      let b =
        serve-Balanced m c image channel (later (c.ended 0) fn) fn.pods best t
          (find_best_pod-IsSearched (c.ended 0) fn) in
      update-Accounted image fs r.0 (channel ∷ []) r.1 h (record {
        counted = λ ch. omega (arith, b.counted ch, ap (occurs ch) w);
        settled = b.settled;
      })
