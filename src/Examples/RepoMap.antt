-- ===== src/Examples/RepoMap.antt =====
-- Calls for a repository that cannot be created.
use porch.Common.{ℕ, ◌≡◌, Bool, true, refl, [], ◌∷◌, none, some, inl}
use porch.RepoMap.{created, failed, Store, Steps, Step, load_or_store, removals}
use porch.RepoMap.Settled.{IsSettled, Returns, settled-Returns}
use porch.RepoMap.Failure.{vacant, failure-sticks}

failure-sticks_example :
    (s : Store Bool ℕ) × Steps (vacant (λ n. none) 0 []) s
    × ((t : Store Bool ℕ) (w : Steps s t) → removals w ≡ 0 → Returns 0 (failed 404) t)
failure-sticks_example = failure-sticks {Repo = Bool} (λ n. none) 0 [] 404 refl tt

-- The repository has been created, and one call that joined is under way.
abbrev one_created : Store Bool ℕ
one_created = record {
  slot = some 0;
  loaders = λ n. some (created true);
  next = 1;
  pending = (0, true) ∷ [];
}

abbrev call_begun : Store Bool ℕ
call_begun = record one_created { pending = (0, true) ∷ (0, true) ∷ [] }

created-IsSettled : IsSettled 0 (created true) one_created
created-IsSettled = record { in_slot = refl; has_result = refl; harmless = (inl refl, tt) }

begun : call_begun ≡ record (load_or_store one_created).0 {
  pending = (load_or_store one_created).1 ∷ one_created.pending;
}
unfolding load_or_store
begun = refl

abbrev one_call : Steps one_created call_begun
one_call = Steps.next_step Steps.here (Step.begin begun)

settled-Returns_example : Returns 0 (created true) call_begun
settled-Returns_example = settled-Returns 0 (created true) created-IsSettled one_call refl
