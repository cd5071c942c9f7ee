-- ===== src/RepoMap.antt =====
-- pkg/cache/repomap/saferepomap.go: the map of repositories that are created on demand, for one key.
-- sync.Map and sync.Once are standard library: a call on the map is one step, and so is a call of
-- once.Do, which waits for one that is under way.
pub mod Settled
pub mod Failure
use porch.Common.{
  ℕ, suc, ◌+◌, Bool, true, false, not, ◌&&◌, ◌==◌, ◌≡◌, List, [], ◌∷◌, ◌++◌, Option, none, some,
  if◌then◌else◌,
}

-- What `create` returned: a repository or an error.
pub data Result (Repo Error : Type 0) : Type 0 where
  created : Repo → Result Repo Error
  failed : Error → Result Repo Error

-- A call of LoadOrCreate between LoadOrStore and once.Do: its loader, and `loaded`.
abbrev pub Pending : Type 0
Pending = ℕ × Bool

-- The loaders by number, with a result where once.Do has run; `next` is the first number that is
-- free. `slot` is the loader that the map holds for the key.
pub record Store (Repo Error : Type 0) : Type 0 where
  pub slot : Option ℕ
  pub loaders : ℕ → Option (Result Repo Error)
  pub next : ℕ
  pub pending : List Pending

module _ {Repo Error : Type 0} where
  abbrev pub empty_store : Store Repo Error
  empty_store = record { slot = none; loaders = λ n. none; next = 0; pending = [] }

  abbrev pub with_result :
      ℕ → Result Repo Error → (ℕ → Option (Result Repo Error)) → ℕ → Option (Result Repo Error)
  with_result n r loaders m = if m == n then some r else loaders m

  -- s.syncMap.LoadOrStore(key, &repoLoader{}): the call that goes on, with the loader it has
  abbrev pub joined : Option ℕ → Store Repo Error → Pending
  joined none s = (s.next, false)
  joined (some n) s = (n, true)

  abbrev pub stored : Option ℕ → Store Repo Error → Store Repo Error
  stored none s = record s { slot = some s.next; next = s.next + 1 }
  stored (some n) s = s

  unfoldable pub load_or_store : Store Repo Error → Store Repo Error × Pending
  load_or_store s = (stored s.slot s, joined s.slot s)

  abbrev pub is_failed : Result Repo Error → Bool
  is_failed (created r) = false
  is_failed (failed e) = true

  abbrev pub run_create :
      Pending
      → Result Repo Error
      → Store Repo Error
      → Option (Result Repo Error)
      → Store Repo Error × Result Repo Error
  run_create p outcome s (some r) = (s, r)
  run_create p outcome s none = (
    record s {
      slot = if is_failed outcome && not p.1 then none else s.slot;
      loaders = with_result p.0 outcome s.loaders;
    },
    outcome,
  )

  -- l.once.Do(...), and what LoadOrCreate returns; `outcome` is what create returns if it is called
  unfoldable pub run_once :
      Pending → Result Repo Error → Store Repo Error → Store Repo Error × Result Repo Error
  run_once p outcome s = run_create p outcome s (s.loaders p.0)

  abbrev pub repo_of : Option (Result Repo Error) → Option Repo
  repo_of (some (created r)) = some r
  repo_of _ = none

  abbrev pub found_in : Store Repo Error → Option ℕ → Option (Option Repo)
  found_in s none = none
  found_in s (some n) = some (repo_of (s.loaders n))

  -- Load: `none` for no loader; the repository is nil where it is not created
  unfoldable pub load : Store Repo Error → Option (Option Repo)
  load s = found_in s s.slot

  -- LoadAndDelete
  unfoldable pub load_and_delete : Store Repo Error → Store Repo Error × Option (Option Repo)
  load_and_delete s = (record s { slot = none }, load s)

  -- One step of the calls for the key: a call of LoadOrCreate begins, one that has begun ends, or
  -- LoadAndDelete empties the map.
  pub data Step (s t : Store Repo Error) : Type 0 where
    begin : t ≡ record (load_or_store s).0 { pending = (load_or_store s).1 ∷ s.pending } → Step s t
    finish :
        (front back : List Pending) (p : Pending) (outcome : Result Repo Error)
        → s.pending ≡ front ++ p ∷ back
        → t ≡ record (run_once p outcome s).0 { pending = front ++ back }
        → Step s t
    take_out : t ≡ (load_and_delete s).0 → Step s t

  abbrev pub takes_out : {s t : Store Repo Error} → Step s t → Bool
  takes_out (take_out e) = true
  takes_out _ = false

  pub data Steps (s : Store Repo Error) : Store Repo Error → Type 0 where
    here : Steps s s
    next_step : {t u : Store Repo Error} → Steps s t → Step t u → Steps s u

  -- How often LoadAndDelete is called.
  abbrev pub removals : {s t : Store Repo Error} → Steps s t → ℕ
  removals here = 0
  removals (next_step w x) = (if takes_out x then 1 else 0) + removals w
