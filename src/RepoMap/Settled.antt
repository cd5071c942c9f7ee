-- ===== src/RepoMap/Settled.antt =====
-- A loader in the map that has its result (pkg/cache/repomap/saferepomap.go).
use porch.Common.{
  ℕ, ◌+◌, Bool, if◌then◌else◌, true, false, ◌==◌, ==_iff, ◌≡◌, ◌⊎◌, inl, inr, refl, subst, ◌∙◌,
  arith, List, [], ◌∷◌, ◌++◌, Option, none, some, All, Bool-cases,
}
use porch.RepoMap.{
  Result, Pending, Store, load_or_store, run_create, run_once, Step, Steps, here, next_step, begin,
  finish, take_out, takes_out, removals, stored, joined,
}

All-front :
    (P : Pending → Type 0) (front back : List Pending) (p : Pending)
    → All P (front ++ p ∷ back)
    → P p × All P (front ++ back)
All-front P [] back p a = (a.0, a.1)
All-front P (q ∷ front) back p a = let (h, rest) = All-front P front back p a.1 in (h, (a.0, rest))

pub All-map :
    (P Q : Pending → Type 0) (ps : List Pending) → ((p : Pending) → P p → Q p) → All P ps → All Q ps
All-map P Q [] f a = tt
All-map P Q (p ∷ ps) f a = (f p a.0, All-map P Q ps f a.1)

quiet_step : (b : Bool) (n : ℕ) → (if b then 1 else 0) + n ≡ 0 → (b ≡ false) × (n ≡ 0)
quiet_step true n h = absurd (omega arith)
quiet_step false n h = (refl, omega arith)

module _ {Repo Error : Type 0} where
  -- Only a call that joined the loader of another may find its loader without a result.
  abbrev pub IsHarmless : Store Repo Error → Pending → Type 0
  IsHarmless s p = (p.1 ≡ true) ⊎ ((r : Result Repo Error) × (s.loaders p.0 ≡ some r))

  -- The map holds loader `n`, which has the result `r`, and no call under way can take it out.
  pub record IsSettled (n : ℕ) (r : Result Repo Error) (s : Store Repo Error) : Type 0 where
    pub in_slot : s.slot ≡ some n
    pub has_result : s.loaders n ≡ some r
    pub harmless : All (IsHarmless s) s.pending

  -- A call of once.Do keeps the results that there are.
  run_once-keeps :
      (p : Pending) (outcome : Result Repo Error) (s : Store Repo Error) (m : ℕ)
      (r : Result Repo Error)
      → s.loaders m ≡ some r
      → (run_once p outcome s).0.loaders m ≡ some r
  unfolding run_once
  run_once-keeps p outcome s m r h = go (s.loaders p.0) refl
    where
      go :
          (o : Option (Result Repo Error))
          → s.loaders p.0 ≡ o
          → (run_create p outcome s o).0.loaders m ≡ some r
      go (some q) e = h
      go none e = elim (Bool-cases (m == p.0)) [
        | inl i ↦ cc ((==_iff m p.0).0 i, h, e)
        | inr i ↦ rw i h
      ]

  run_once-slot :
      (p : Pending) (outcome : Result Repo Error) (s : Store Repo Error)
      → IsHarmless s p
      → (run_once p outcome s).0.slot ≡ s.slot
  unfolding run_once
  run_once-slot p outcome s (inr (r, e)) = rw e refl
  run_once-slot p outcome s (inl l) = go (s.loaders p.0)
    where
      go : (o : Option (Result Repo Error)) → (run_create p outcome s o).0.slot ≡ s.slot
      go (some q) = refl
      go none = rw l (ground arith)

  run_once-pending :
      (p : Pending) (outcome : Result Repo Error) (s : Store Repo Error)
      → (q : Pending) → IsHarmless s q
      → IsHarmless (run_once p outcome s).0 q
  run_once-pending p outcome s q (inl l) = inl l
  run_once-pending p outcome s q (inr (r, e)) = inr (r, run_once-keeps p outcome s q.0 r e)

  Step-IsSettled :
      (n : ℕ) (r : Result Repo Error) {s t : Store Repo Error} (x : Step s t)
      → takes_out x ≡ false
      → IsSettled n r s
      → IsSettled n r t
  unfolding load_or_store
  Step-IsSettled n r {s} (take_out e) d h = cc d
  Step-IsSettled n r {s} (begin e) d h = rw e (begun s.slot h.in_slot)
    where
      begun :
          (o : Option ℕ)
          → o ≡ some n
          → IsSettled n r (record (stored o s) { pending = joined o s ∷ s.pending })
      begun none i = cc i
      begun (some m) i = record {
        in_slot = h.in_slot;
        has_result = h.has_result;
        harmless = (inl refl, h.harmless);
      }
  Step-IsSettled n r {s} (finish front back p outcome q e) d h =
      let (own, others) =
        All-front (IsHarmless s) front back p (subst (All (IsHarmless s)) q h.harmless) in
      rw e (record {
        in_slot = run_once-slot p outcome s own ∙ h.in_slot;
        has_result = run_once-keeps p outcome s n r h.has_result;
        harmless =
            All-map (IsHarmless s) (IsHarmless (run_once p outcome s).0) (front ++ back)
              (run_once-pending p outcome s) others;
      })

  Steps-IsSettled :
      (n : ℕ) (r : Result Repo Error) {s t : Store Repo Error} (w : Steps s t)
      → removals w ≡ 0
      → IsSettled n r s
      → IsSettled n r t
  Steps-IsSettled n r here d h = h
  Steps-IsSettled n r (next_step w x) d h =
      let (e, f) = quiet_step (takes_out x) (removals w) d in
      Step-IsSettled n r x e (Steps-IsSettled n r w f h)

  -- What a call finds that begins in the store `s`: it joins loader `n`, and is given its result
  -- without a call of create, which would return `outcome`.
  pub record Returns (n : ℕ) (r : Result Repo Error) (s : Store Repo Error) : Type 0 where
    pub joins : load_or_store s ≡ (s, (n, true))
    pub returns : (outcome : Result Repo Error) → run_once (n, true) outcome s ≡ (s, r)

  IsSettled-Returns :
      (n : ℕ) (r : Result Repo Error) (s : Store Repo Error) → IsSettled n r s → Returns n r s
  unfolding load_or_store run_once
  IsSettled-Returns n r s h = record {
    joins = rw h.in_slot refl;
    returns = λ outcome. rw h.has_result refl;
  }

  -- Once the loader in the map has its result, and no call under way made a loader that has none,
  -- every call of LoadOrCreate that begins before LoadAndDelete is next called for the key returns this
  -- result, be it a repository or an error, however the calls of LoadOrCreate interleave, and does not
  -- call create again.
  pub settled-Returns :
      (n : ℕ) (r : Result Repo Error) {s t : Store Repo Error}
      → IsSettled n r s
      → (w : Steps s t) → removals w ≡ 0
      → Returns n r t
  settled-Returns n r {s} {t} h w d = IsSettled-Returns n r t (Steps-IsSettled n r w d h)
