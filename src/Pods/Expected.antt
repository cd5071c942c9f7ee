-- ===== src/Pods/Expected.antt =====
-- A pod that has been created is expected (pkg/engine/podevaluator/podcachemanager.go).
use porch.Common.{
  ℕ, suc, true, false, ◌≡◌, refl, sym, ◌∙◌, arith, Text, List, [], ◌∷◌, none, if◌then◌else◌, eqb,
  eqb_iff, eqb→eq, Bool-cases, inl, inr,
}
use porch.Common.Tables.{lookup, insert, lookup-insert}
use porch.Pods.{Pod, Function, Manager}
use porch.Pods.Handlers.{Functions, Cluster, remove_unhealthy_pods}
use porch.Pods.Loop.{function_info, garbage_collector, keep_function}
use porch.Pods.Waiting.{pending}
use porch.Pods.Redistribution.{remove-waiting}
use porch.Pods.Accounts.{AllSettled}

-- How often an image occurs in a list.
abbrev pub count : Text → List Text → ℕ
count image [] = 0
count image (x ∷ xs) = if eqb x image then suc (count image xs) else count image xs

-- The pods of a function that are being created.
abbrev pub pending_of : Text → Functions → ℕ
pending_of image fs = pending (function_info image fs).pods

-- Each image is there once.
abbrev pub Distinct : Functions → Type 0
Distinct [] = Unit
Distinct ((image, fn) ∷ fs) = (lookup image fs ≡ none) × Distinct fs

insert-none :
    (j k : Text) (fn : Function) (fs : Functions)
    → eqb k j ≡ false
    → lookup j fs ≡ none
    → lookup j (insert k fn fs) ≡ none
insert-none j k fn fs e h = rw (lookup-insert k j fn fs, e) h

pub insert-Distinct :
    (k : Text) (fn : Function) (fs : Functions) → Distinct fs → Distinct (insert k fn fs)
unfolding insert lookup
insert-Distinct k fn [] h = (refl, tt)
insert-Distinct k fn ((j, g) ∷ fs) h = elim (Bool-cases (eqb j k)) [
  | inl e ↦ simp e h
  | inr e ↦ simp e (
    insert-none j k fn fs (ground (arith, eqb_iff j k, eqb_iff k j)) h.0,
    insert-Distinct k fn fs h.1,
  )
]

pub pending_of-insert :
    (k j : Text) (fn : Function) (fs : Functions)
    → pending_of j (insert k fn fs) ≡ (if eqb k j then pending fn.pods else pending_of j fs)
unfolding function_info
pending_of-insert k j fn fs = rw (lookup-insert k j fn fs) (ground arith)

pending_of-cons :
    (j image : Text) (fn : Function) (fs : Functions)
    → pending_of j ((image, fn) ∷ fs) ≡ (if eqb image j then pending fn.pods else pending_of j fs)
unfolding function_info lookup
pending_of-cons j image fn fs = elim (Bool-cases (eqb image j)) [
  | inl e ↦ simp e refl
  | inr e ↦ simp e refl
]

module _ (m : Manager) (c : Cluster) where
  keep-none :
      (j image : Text) (fn : Function) (ps : List Pod) (fs : Functions)
      → eqb image j ≡ false
      → lookup j fs ≡ none
      → lookup j (keep_function m c image fn ps fs) ≡ none
  unfolding lookup
  keep-none j image fn [] fs e h = h
  keep-none j image fn (p ∷ ps) fs e h = simp e h

  keep-Distinct :
      (image : Text) (fn : Function) (ps : List Pod) (fs : Functions)
      → lookup image fs ≡ none
      → Distinct fs
      → Distinct (keep_function m c image fn ps fs)
  keep-Distinct image fn [] fs n h = h
  keep-Distinct image fn (p ∷ ps) fs n h = (n, h)

  keep-pending :
      (j image : Text) (fn : Function) (ps : List Pod) (fs : Functions)
      → lookup image fs ≡ none
      → pending_of j (keep_function m c image fn ps fs)
        ≡ (if eqb image j then pending ps else pending_of j fs)
  unfolding function_info lookup
  keep-pending j image fn [] fs n = elim (Bool-cases (eqb image j)) [
    | inl e ↦ simp e (rw (← eqb→eq image j e) (rw n refl))
    | inr e ↦ simp e refl
  ]
  keep-pending j image fn (p ∷ ps) fs n = elim (Bool-cases (eqb image j)) [
    | inl e ↦ simp e refl
    | inr e ↦ simp e refl
  ]

  gc-none :
      (j : Text) (fs : Functions)
      → lookup j fs ≡ none
      → lookup j (garbage_collector m c fs).0 ≡ none
  unfolding garbage_collector lookup
  gc-none j [] h = refl
  gc-none j ((image, fn) ∷ fs) h = elim (Bool-cases (eqb image j)) [
    | inl e ↦ cc (simp e at h)
    | inr e ↦
        keep-none j image fn (remove_unhealthy_pods m c true fn.pods).0 (garbage_collector m c fs).0
          e (gc-none j fs (simp e at h))
  ]

  pub gc-Distinct : (fs : Functions) → Distinct fs → Distinct (garbage_collector m c fs).0
  unfolding garbage_collector
  gc-Distinct [] h = tt
  gc-Distinct ((image, fn) ∷ fs) h =
      keep-Distinct image fn (remove_unhealthy_pods m c true fn.pods).0 (garbage_collector m c fs).0
        (gc-none image fs h.0) (gc-Distinct fs h.1)

  pub gc-pending :
      (j : Text) (fs : Functions)
      → AllSettled fs
      → Distinct fs
      → pending_of j (garbage_collector m c fs).0 ≡ pending_of j fs
  unfolding garbage_collector
  gc-pending j [] s h = refl
  gc-pending j ((image, fn) ∷ fs) s h =
      let (w, n, q, t) = remove-waiting m c true fn.pods s.0 in
      keep-pending j image fn (remove_unhealthy_pods m c true fn.pods).0
        (garbage_collector m c fs).0 (gc-none image fs h.0)
      ∙ simp (n, gc-pending j fs s.1 h.1) (sym (pending_of-cons j image fn fs))
