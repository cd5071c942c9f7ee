-- ===== src/Pods/Balance.antt =====
-- What findBestPod finds (pkg/engine/podevaluator/podcachemanager.go).
use porch.Common.{
  ℕ, zero, suc, ◌+◌, ◌%◌, ◌<◌, ◌≤◌, true, ◌≡◌, ◌⊎◌, refl, arith, List, [], ◌∷◌, Option, none, some,
  if◌then◌else◌, ltb, length, get_elem?, All, Bool-cases, Option-cases, inl, inr,
}
use porch.Pods.{
  Pod, Function, min_load, has_load, search_from, chosen_pod, best_of, later, find_best_pod,
}

abbrev pub Below : ℕ → List Pod → Type 0
Below least = All (λ p. least ≤ p.concurrent)

min_load-le : (least : ℕ) (ps : List Pod) → min_load least ps ≤ least
unfolding min_load
min_load-le least [] = omega arith
min_load-le least (p ∷ ps) =
    ground (arith, min_load-le (if ltb p.concurrent least then p.concurrent else least) ps)

min_load-Below : (least : ℕ) (ps : List Pod) → Below (min_load least ps) ps
unfolding min_load
min_load-Below least [] = tt
min_load-Below least (p ∷ ps) =
    let next = if ltb p.concurrent least then p.concurrent else least in
    (ground (arith, min_load-le next ps), min_load-Below next ps)

search_from-has_load :
    (pods : List Pod) (least rounds at k : ℕ)
    → search_from pods least rounds at ≡ some k
    → has_load least (get_elem? pods k) ≡ true
unfolding search_from
search_from-has_load pods least zero at k h = cc
search_from-has_load pods least (suc rounds) at k h =
    elim (Bool-cases (has_load least (get_elem? pods (at % length pods)))) [
      | inl e ↦ ground arith
      | inr e ↦ search_from-has_load pods least rounds (at + 1) k (rw e at h)
    ]

get_elem?-length :
    (k : ℕ) (least : ℕ) (ps : List Pod) → has_load least (get_elem? ps k) ≡ true → k < length ps
get_elem?-length k least [] h = cc
get_elem?-length zero least (p ∷ ps) h = omega arith
get_elem?-length (suc k) least (p ∷ ps) h = omega (arith, get_elem?-length k least ps h)

-- A pod among those of the function that has the given load in the second loop, where none had less in
-- the first one.
pub record IsBest (pods first : List Pod) (idx load : ℕ) : Type 0 where
  pub within : idx < length pods
  pub loaded : has_load load (get_elem? pods idx) ≡ true
  pub least : Below load first

-- The result of findBestPod where it finds a pod; `first` are the pods of the first loop.
abbrev pub Chosen : Function → List Pod → Option (ℕ × ℕ) × Function → Type 0
Chosen fn first r =
    (idx : ℕ) × (load : ℕ) × (r
      ≡ (some (idx, load), record fn { round_robin = (idx + 1) % length fn.pods }))
    × IsBest fn.pods first idx load

-- Either no pod is found, or one that had the least load.
abbrev pub IsSearched : Function → List Pod → Option (ℕ × ℕ) × Function → Type 0
IsSearched fn first r = r ≡ (none, fn) ⊎ Chosen fn first r

best_of-IsSearched : (fn : Function) (first : List Pod) → IsSearched fn first (best_of fn first)
unfolding best_of chosen_pod
best_of-IsSearched fn [] = inl refl
best_of-IsSearched fn (p ∷ ps) =
    let least = min_load p.concurrent ps in
    elim (Option-cases (search_from fn.pods least (length fn.pods) fn.round_robin)) [
      | inl e ↦ inl (rw e refl)
      | inr (k, e) ↦
          let has = search_from-has_load fn.pods least (length fn.pods) fn.round_robin k e in
          inr (
            k,
            least,
            rw e refl,
            record {
              within = get_elem?-length k least fn.pods has;
              loaded = has;
              least = (min_load-le p.concurrent ps, min_load-Below p.concurrent ps);
            },
          )
    ]

-- findBestPod finds no pod, or one whose load, as its second loop reads it, is at most every load that
-- its first loop has read.
pub find_best_pod-IsSearched :
    (ended : ℕ → ℕ) (fn : Function) → IsSearched (later ended fn) fn.pods (find_best_pod ended fn)
unfolding find_best_pod
find_best_pod-IsSearched ended fn = best_of-IsSearched (later ended fn) fn.pods
