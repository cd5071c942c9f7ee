-- ===== src/Pods/Meeting.antt =====
-- The states that the loop of podCacheManager reaches, with the pods that are being created
-- (pkg/engine/podevaluator/podcachemanager.go).
use porch.Common.{
  ℕ, zero, suc, ◌+◌, ◌<◌, false, ◌≡◌, refl, ap, ◌∙◌, subst, arith, Text, List, [], ◌∷◌, ◌++◌,
  Option, some, eqb, eqb→eq, eqb_refl, is_empty, length, All, Bool-cases, Option-cases, inl, inr,
}
use porch.Common.Tables.{lookup, insert}
use porch.Pods.{ObjectKey, PodData, Pod, Function, Manager}
use porch.Pods.Handlers.{Functions, Cluster, ready_at}
use porch.Pods.Loop.{
  Message, message_image, function_info, first_pending, settle, handle_request, handle_ready,
  handle_eviction, garbage_collector, finish_evaluation,
}
use porch.Pods.Waiting.{pending, first_pending-exists}
use porch.Pods.Accounts.{AllSettled}
use porch.Pods.Pending.{starts}
use porch.Pods.Expected.{count, pending_of, Distinct, pending_of-insert}

-- The cache, and the images of the pods that getFuncEvalPodClient is creating.
pub record World : Type 0 where
  pub functions : Functions
  pub starting : List Text

module _ (m : Manager) where
  -- A request comes with an image, and every call of getFuncEvalPodClient ends with one message about
  -- its image.
  pub data Step : World → World → Type 0 where
    serves :
        (c : Cluster) (image : Text) (channel : ℕ) (w : World)
        → is_empty image ≡ false
        → Step w (record {
          functions = (handle_request m c image channel w.functions).0;
          starting = starts (handle_request m c image channel w.functions).1 ++ w.starting;
        })
    creates :
        (c : Cluster) (msg : Message) (w : World) (xs ys : List Text)
        → w.starting ≡ xs ++ message_image msg ∷ ys
        → Step w (record { functions = (handle_ready m c msg w.functions).0; starting = xs ++ ys })
    drops :
        (c : Cluster) (image : Text) (k : ObjectKey) (closed : Option ℕ) (w : World)
        → Step w (record w { functions = (handle_eviction m c image k closed w.functions).0 })
    collects :
        (c : Cluster) (w : World)
        → Step w (record w { functions = (garbage_collector m c w.functions).0 })
    ends :
        (c : Cluster) (image : Text) (pod : ℕ) (w : World)
        → Step w (record w { functions = finish_evaluation m c image pod w.functions })

  pub data Reach : World → Type 0 where
    start : Reach (record { functions = []; starting = [] })
    next : {w w' : World} → Reach w → Step w w' → Reach w'

pub record IsExpecting (w : World) : Type 0 where
  pub settled : AllSettled w.functions
  pub distinct : Distinct w.functions
  pub filled : All (λ image. is_empty image ≡ false) w.starting
  pub expected : (image : Text) → count image w.starting ≡ pending_of image w.functions

count-append :
    (image : Text) (xs ys : List Text) → count image (xs ++ ys) ≡ count image xs + count image ys
count-append image [] ys = omega arith
count-append image (x ∷ xs) ys = ground (arith, count-append image xs ys)

pub All-middle :
    (P : Text → Type 0) (xs : List Text) (x : Text) (ys : List Text)
    → All P (xs ++ x ∷ ys)
    → P x × All P (xs ++ ys)
All-middle P [] x ys h = h
All-middle P (z ∷ xs) x ys h = let (p, q) = All-middle P xs x ys h.1 in (p, (h.0, q))

pub counts-middle :
    (j : Text) (xs ys all : List Text) → all ≡ xs ++ j ∷ ys → count j all ≡ suc (count j (xs ++ ys))
counts-middle j xs ys all e =
    let here : count j (j ∷ ys) ≡ suc (count j ys) = rw (eqb_refl j) refl in
    omega (arith, ap (count j) e, count-append j xs (j ∷ ys), count-append j xs ys, here)

pub counts-others :
    (j image : Text) (xs ys all : List Text)
    → eqb image j ≡ false
    → all ≡ xs ++ image ∷ ys
    → count j all ≡ count j (xs ++ ys)
counts-others j image xs ys all t e =
    let there : count j (image ∷ ys) ≡ count j ys = rw t refl in
    omega (arith, ap (count j) e, count-append j xs (image ∷ ys), count-append j xs ys, there)

pub pending_of-found :
    (image : Text) (fs : Functions) (fn : Function)
    → lookup image fs ≡ some fn
    → pending_of image fs ≡ pending fn.pods
unfolding function_info
pending_of-found image fs fn e = simp e refl

-- A change of a function that keeps its pending pods.
pub changed :
    (j image : Text) (fs : Functions) (fn new : Function)
    → lookup image fs ≡ some fn
    → pending new.pods ≡ pending fn.pods
    → pending_of j (insert image new fs) ≡ pending_of j fs
changed j image fs fn new l n = pending_of-insert image j new fs ∙ elim (Bool-cases (eqb image j)) [
  | inl t ↦ simp t (
      omega (
        arith,
        n,
        pending_of-found image fs fn l,
        ap (λ (i : Text). pending_of i fs) (eqb→eq image j t),
      ))
  | inr t ↦ simp t refl
]

pub ready_at-within : (i : ℕ) (ps : List Pod) (d : PodData) → ready_at i ps ≡ some d → i < length ps
ready_at-within i [] d h = cc
ready_at-within zero (p ∷ ps) d h = omega arith
ready_at-within (suc i) (p ∷ ps) d h = omega (arith, ready_at-within i ps d h)

-- What a message about a pod that is being created meets.
pub record Met (m : Manager) (c : Cluster) (msg : Message) (fs : Functions) : Type 0 where
  pub function : Function
  pub pod : ℕ
  pub there : lookup (message_image msg) fs ≡ some function
  pub first : first_pending function.pods ≡ some pod
  pub handled : handle_ready m c msg fs ≡ (
    insert (message_image msg) (settle m c msg pod function).0 fs,
    (settle m c msg pod function).1,
  )

module _ (m : Manager) (c : Cluster) where
  present :
      (image : Text) (fs : Functions)
      → 0 < pending_of image fs
      → (fn : Function) × (lookup image fs ≡ some fn) × (0 < pending fn.pods)
  unfolding function_info
  present image fs h = elim (Option-cases (lookup image fs)) [
    | inl e ↦ absurd (omega (arith, rw e at h))
    | inr (fn, e) ↦ (fn, e, rw e at h)
  ]

  pub meets :
      (msg : Message) (w : World) (xs ys : List Text)
      → IsExpecting w
      → w.starting ≡ xs ++ message_image msg ∷ ys
      → Met m c msg w.functions
  unfolding handle_ready
  meets msg w xs ys h e =
      let image = message_image msg in
      let (f, rest) =
        All-middle (λ image. is_empty image ≡ false) xs image ys
          (subst (All (λ image. is_empty image ≡ false)) e h.filled) in
      let (fn, l, pos) =
        present image w.functions
          (omega (arith, h.expected image, counts-middle image xs ys w.starting e)) in
      let (i, p) = first_pending-exists fn.pods pos in
      record { function = fn; pod = i; there = l; first = p; handled = simp (f, l, p) refl }
