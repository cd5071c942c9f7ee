-- ===== src/RepoMap/Failure.antt =====
-- A failed creation that is never tried again (pkg/cache/repomap/saferepomap.go).
use porch.Common.{
  ℕ, ◌+◌, true, false, ◌==◌, ◌≡◌, inl, inr, refl, arith, List, [], ◌∷◌, Option, none, some, All,
  Bool-cases,
}
use porch.RepoMap.{
  Result, failed, Pending, Store, with_result, load_or_store, run_once, Steps, here, next_step,
  begin, finish, removals,
}
use porch.RepoMap.Settled.{IsHarmless, All-map, IsSettled, Returns, settled-Returns}

module _ {Repo Error : Type 0} where
  -- A store whose map has no loader for the key.
  abbrev pub vacant : (ℕ → Option (Result Repo Error)) → ℕ → List Pending → Store Repo Error
  vacant loaders n ps = record { slot = none; loaders = loaders; next = n; pending = ps }

  -- The store after two calls of which the second one has failed.
  abbrev pub stuck : (ℕ → Option (Result Repo Error)) → ℕ → List Pending → Error → Store Repo Error
  stuck loaders n ps e = record {
    slot = some n;
    loaders = with_result n (failed e) loaders;
    next = n + 1;
    pending = (n, false) ∷ ps;
  }

  two_calls :
      (loaders : ℕ → Option (Result Repo Error)) (n : ℕ) (ps : List Pending) (e : Error)
      → loaders n ≡ none
      → Steps (vacant loaders n ps) (stuck loaders n ps e)
  unfolding load_or_store run_once
  two_calls loaders n ps e h =
      next_step (next_step (next_step here (begin refl)) (begin refl))
        (finish [] ((n, false) ∷ ps) (n, true) (failed e) refl (rw h refl))

  stuck-IsSettled :
      (loaders : ℕ → Option (Result Repo Error)) (n : ℕ) (ps : List Pending) (e : Error)
      → loaders n ≡ none
      → All (IsHarmless (vacant loaders n ps)) ps
      → IsSettled n (failed e) (stuck loaders n ps e)
  unfolding run_once
  stuck-IsSettled loaders n ps e h a = record {
    in_slot = refl;
    has_result = own;
    harmless = (inr (failed e, own), All-map _ _ ps kept a);
  }
    where
      own : with_result n (failed e) loaders n ≡ some (failed e)
      own = ground arith

      kept :
          (q : Pending) → IsHarmless (vacant loaders n ps) q → IsHarmless (stuck loaders n ps e) q
      kept q (inl l) = inl l
      kept q (inr (r, i)) = elim (Bool-cases (q.0 == n)) [
        | inl j ↦ inr (failed e, rw j refl)
        | inr j ↦ inr (r, rw j i)
      ]

  -- Two calls that overlap can leave a failure: from a store without a loader for the key, the second
  -- call may join the loader of the first one, call create before it and fail; then the loader stays in
  -- the map, and until LoadAndDelete is called for the key, every call that begins returns the error
  -- without calling create again.
  pub failure-sticks :
      (loaders : ℕ → Option (Result Repo Error)) (n : ℕ) (ps : List Pending) (e : Error)
      → loaders n ≡ none
      → All (IsHarmless (vacant loaders n ps)) ps
      → (s : Store Repo Error) × Steps (vacant loaders n ps) s
        × ((t : Store Repo Error) (w : Steps s t) → removals w ≡ 0 → Returns n (failed e) t)
  failure-sticks loaders n ps e h a = (
    stuck loaders n ps e,
    two_calls loaders n ps e h,
    λ t w d. settled-Returns n (failed e) (stuck-IsSettled loaders n ps e h a) w d,
  )
