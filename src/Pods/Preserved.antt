-- ===== src/Pods/Preserved.antt =====
-- The states that the loop of podCacheManager reaches, with the pods that are being created
-- (pkg/engine/podevaluator/podcachemanager.go).
use porch.Common.{
  ℕ, false, ◌≡◌, refl, ap, arith, Text, List, ◌∷◌, ◌++◌, Option, eqb, eqb→eq, is_empty, All,
  Bool-cases, Option-cases, inl, inr,
}
use porch.Common.Tables.{lookup}
use porch.Pods.{ObjectKey, Manager, find_best_pod}
use porch.Pods.Handlers.{Functions, Cluster, change}
use porch.Pods.Loop.{
  Message, message_image, function_info, index_of, settle, evict_at, handle_request, handle_ready,
  handle_eviction, evaluated, finish_evaluation, serve_request,
}
use porch.Pods.Serving.{index_of-found}
use porch.Pods.Conservation.{found-AreSettled}
use porch.Pods.Pending.{starts, request-Started, settle-pending, evict-pending, evaluated-pending}
use porch.Pods.Expected.{count, pending_of, Distinct, insert-Distinct, pending_of-insert}
use porch.Pods.Meeting.{
  World, IsExpecting, meets, counts-middle, counts-others, pending_of-found, changed,
  ready_at-within,
}

module _ (m : Manager) (c : Cluster) where
  pub serves-Distinct :
      (image : Text) (channel : ℕ) (fs : Functions)
      → Distinct fs
      → Distinct (handle_request m c image channel fs).0
  unfolding handle_request
  serves-Distinct image channel fs h =
      insert-Distinct image
        (serve_request m c image channel (find_best_pod (c.ended 0) (function_info image fs))).0 fs
        h

  pub creates-Distinct :
      (msg : Message) (w : World) (xs ys : List Text)
      → IsExpecting w
      → w.starting ≡ xs ++ message_image msg ∷ ys
      → Distinct (handle_ready m c msg w.functions).0
  creates-Distinct msg w xs ys h e =
      let met = meets m c msg w xs ys h e in
      rw met.handled (
        insert-Distinct (message_image msg) (settle m c msg met.pod met.function).0 w.functions
          h.distinct)

  pub serves-expected :
      (image : Text) (channel : ℕ) (fs : Functions) (starting : List Text)
      → ((j : Text) → count j starting ≡ pending_of j fs)
      → (j : Text)
      → count j (starts (handle_request m c image channel fs).1 ++ starting)
        ≡ pending_of j (handle_request m c image channel fs).0
  unfolding handle_request
  serves-expected image channel fs starting h j =
      let fn = function_info image fs in
      let r = serve_request m c image channel (find_best_pod (c.ended 0) fn) in
      let p = pending_of-insert image j r.0 fs in
      elim (request-Started m c image channel fn) [
        | inl (e, n) ↦
            rw (e, p)
              (elim (Bool-cases (eqb image j)) [
                | inl t ↦
                    simp t
                      (omega (arith, h j, ap (λ (i : Text). pending_of i fs) (eqb→eq image j t), n))
                | inr t ↦ simp t (h j)
              ])
        | inr (e, n) ↦
            rw (e, p)
              (elim (Bool-cases (eqb image j)) [
                | inl t ↦
                    simp t
                      (omega (arith, h j, ap (λ (i : Text). pending_of i fs) (eqb→eq image j t), n))
                | inr t ↦ simp t (h j)
              ])
      ]

  pub creates-expected :
      (msg : Message) (w : World) (xs ys : List Text)
      → IsExpecting w
      → w.starting ≡ xs ++ message_image msg ∷ ys
      → (j : Text) → count j (xs ++ ys) ≡ pending_of j (handle_ready m c msg w.functions).0
  creates-expected msg w xs ys h e j =
      let image = message_image msg in
      let met = meets m c msg w xs ys h e in
      let less =
        settle-pending m c msg met.pod met.function
          (found-AreSettled m c image w.functions met.function h.settled met.there) met.first in
      let known = pending_of-found image w.functions met.function met.there in
      rw
        (met.handled, pending_of-insert image j (settle m c msg met.pod met.function).0 w.functions)
        (elim (Bool-cases (eqb image j)) [
          | inl t ↦ simp t (
              omega (
                arith,
                less,
                known,
                h.expected image,
                counts-middle image xs ys w.starting e,
                ap (λ (i : Text). count i (xs ++ ys)) (eqb→eq image j t),
              ))
          | inr t ↦ simp t (omega (arith, h.expected j, counts-others j image xs ys w.starting t e))
        ])

  pub evicts-pending :
      (j image : Text) (k : ObjectKey) (closed : Option ℕ) (fs : Functions)
      → pending_of j (handle_eviction m c image k closed fs).0 ≡ pending_of j fs
  unfolding handle_eviction
  evicts-pending j image k closed fs = elim (Option-cases (lookup image fs)) [
    | inl l ↦ simp l refl
    | inr (fn, l) ↦ simp l (elim (Option-cases (index_of k fn.pods)) [
      | inl e ↦ simp e refl
      | inr (i, e) ↦
          let (d, r) = index_of-found k i fn.pods e in
          let n = evict-pending m c k i fn d (c.pod_at k) (ready_at-within i fn.pods d r) r in
          simp e (changed j image fs fn (evict_at m c k i fn (c.pod_at k)).0 l n)
    ])
  ]

  pub ends-pending :
      (j image : Text) (i : ℕ) (fs : Functions)
      → pending_of j (finish_evaluation m c image i fs) ≡ pending_of j fs
  unfolding finish_evaluation
  ends-pending j image i fs = elim (Option-cases (lookup image fs)) [
    | inl l ↦ simp l refl
    | inr (fn, l) ↦ simp l (
        changed j image fs fn (record fn { pods = change (evaluated m c) i fn.pods }) l
          (evaluated-pending m c i fn.pods))
  ]

  pub evicts-Distinct :
      (image : Text) (k : ObjectKey) (closed : Option ℕ) (fs : Functions)
      → Distinct fs
      → Distinct (handle_eviction m c image k closed fs).0
  unfolding handle_eviction
  evicts-Distinct image k closed fs h = elim (Option-cases (lookup image fs)) [
    | inl l ↦ simp l h
    | inr (fn, l) ↦ simp l (elim (Option-cases (index_of k fn.pods)) [
      | inl e ↦ simp e h
      | inr (i, e) ↦ simp e (insert-Distinct image (evict_at m c k i fn (c.pod_at k)).0 fs h)
    ])
  ]

  pub ends-Distinct :
      (image : Text) (i : ℕ) (fs : Functions)
      → Distinct fs
      → Distinct (finish_evaluation m c image i fs)
  unfolding finish_evaluation
  ends-Distinct image i fs h = elim (Option-cases (lookup image fs)) [
    | inl l ↦ simp l h
    | inr (fn, l) ↦
        simp l (insert-Distinct image (record fn { pods = change (evaluated m c) i fn.pods }) fs h)
  ]

  pub serves-filled :
      (image : Text) (channel : ℕ) (fs : Functions) (starting : List Text)
      → is_empty image ≡ false
      → All (λ i. is_empty i ≡ false) starting
      → All (λ i. is_empty i ≡ false) (starts (handle_request m c image channel fs).1 ++ starting)
  unfolding handle_request
  serves-filled image channel fs starting f h =
      let fn = function_info image fs in
      elim (request-Started m c image channel fn) [ inl (e, n) ↦ rw e h | inr (e, n) ↦ rw e (f, h) ]
