-- ===== src/Git/Updates.antt =====
-- The lifecycles that git shows after UpdateLifecycle (pkg/externalrepo/git/git.go).
use porch.Common.{
  true, false, ◌&&◌, ◌≡◌, ◌↔◌, refl, ap, sym, ◌∙◌, arith, Text, List, Option, none, some,
  if◌then◌else◌, eqb, Bool-cases, inl, inr,
}
use porch.Lifecycle.{Lifecycle, deletion_proposed, lifecycle_eq, is_published}
use porch.Git.Lifecycles.{
  GitPackageRevision, Cache, filled, cached_lifecycle, check_published_lifecycle, get_lifecycle,
  RefUpdate, PushResult, panicked, refused_draft, deletion_branch, move_lifecycle, update_lifecycle,
}
use porch.Git.Moves.{
  is_unpublished, is_move, shown, concerns, is_move-published, draft_returns,
  lifecycle_at-published, lifecycle_at-unpublished, lifecycle_at-old, moved, move_lifecycle-moved,
  move_lifecycle-returns, nil-panics_iff, cached_lifecycle-moved,
}

module _ (push : RefUpdate → PushResult) (pr : GitPackageRevision) where
  module _ (refs : Option (List Text)) where
    get_lifecycle-published :
        (cache : Cache) (other : GitPackageRevision)
        → is_unpublished other.ref ≡ false
        → get_lifecycle refs cache other
          ≡ (cached_lifecycle (filled refs cache) (deletion_branch other), filled refs cache)
    unfolding get_lifecycle check_published_lifecycle
    get_lifecycle-published cache other =
        lifecycle_at-published (check_published_lifecycle refs cache other) cache other.ref

    get_lifecycle-known :
        (cache : Cache) (s : List Text) (other : GitPackageRevision)
        → filled refs cache ≡ some s
        → is_unpublished other.ref ≡ false
        → get_lifecycle refs cache other
          ≡ (cached_lifecycle (some s) (deletion_branch other), some s)
    get_lifecycle-known cache s other h u = rw (get_lifecycle-published cache other u, h) refl

    shown-known :
        (cache : Cache) (s : List Text) (other : GitPackageRevision)
        → filled refs cache ≡ some s
        → is_unpublished other.ref ≡ false
        → shown refs cache other ≡ cached_lifecycle (some s) (deletion_branch other)
    shown-known cache s other h u = ap (λ p. p.0) (get_lifecycle-known cache s other h u)

    shown-unpublished :
        (c d : Cache) (other : GitPackageRevision)
        → is_unpublished other.ref ≡ true
        → shown refs c other ≡ shown refs d other
    unfolding get_lifecycle
    shown-unpublished c d other =
        lifecycle_at-unpublished (check_published_lifecycle refs c other)
          (check_published_lifecycle refs d other) c d other.ref

    cached-is_published :
        (cache : Cache) (b : Text) → is_published (cached_lifecycle cache b) ≡ true
    unfolding cached_lifecycle is_published lifecycle_eq
    cached-is_published none b = refl
    cached-is_published (some s) b = ground arith

    shown-draft :
        (cache : Cache) → is_unpublished pr.ref ≡ true → is_published (shown refs cache pr) ≡ false
    unfolding get_lifecycle
    shown-draft cache h =
        (lifecycle_at-old (check_published_lifecycle refs cache pr) cache pr.ref h).0

    update-draft :
        (cache : Cache) (new : Lifecycle)
        → is_unpublished pr.ref ≡ true
        → update_lifecycle push pr refs cache new ≡ (refused_draft, cache)
    unfolding update_lifecycle move_lifecycle get_lifecycle
    update-draft cache new h =
        let (e, f) = lifecycle_at-old (check_published_lifecycle refs cache pr) cache pr.ref h in
        rw (e, f) refl

    update-published :
        (cache : Cache) (s : List Text) (new : Lifecycle)
        → filled refs cache ≡ some s
        → is_unpublished pr.ref ≡ false
        → (update_lifecycle push pr refs cache new).1
          ≡ some (moved push pr (is_move (shown refs cache pr) new) new s)
    unfolding update_lifecycle
    update-published cache s new h u =
        rw (get_lifecycle-known cache s pr h u, shown-known cache s pr h u)
          (move_lifecycle-moved push pr s (cached_lifecycle (some s) (deletion_branch pr)) new
            (cached-is_published (some s) (deletion_branch pr)))

    shown-move_lifecycle :
        (cache : Cache) (s : List Text) (other : GitPackageRevision) (new : Lifecycle)
        → filled refs cache ≡ some s
        → is_unpublished pr.ref ≡ false
        → is_unpublished other.ref ≡ false
        → shown refs (some (moved push pr (is_move (shown refs cache pr) new) new s)) other ≡ (
            if is_move (shown refs cache pr) new && eqb (deletion_branch pr) (deletion_branch other)
            then new
            else shown refs cache other)
    unfolding filled
    shown-move_lifecycle cache s other new h u v =
        rw
          (
            shown-known cache s pr h u,
            shown-known cache s other h v,
            shown-known
                (some (
                  moved push pr (is_move (cached_lifecycle (some s) (deletion_branch pr)) new) new
                    s))
                (moved push pr (is_move (cached_lifecycle (some s) (deletion_branch pr)) new) new s)
                other refl v,
          )
          (cached_lifecycle-moved push pr s (cached_lifecycle (some s) (deletion_branch pr)) new
            (deletion_branch other) refl)

    -- Wherever the set of deletionProposed branches is known or can be read, UpdateLifecycle changes
    -- the lifecycle that is shown for the published revisions with the branch of the revision given,
    -- to the one asked for, if that is a move from published to deletionProposed or back, and it
    -- changes no other revision's. It does so whether or not the push succeeds.
    pub update_lifecycle-shown :
        (cache : Cache) (branches : List Text) (other : GitPackageRevision) (new : Lifecycle)
        → filled refs cache ≡ some branches
        → shown refs (update_lifecycle push pr refs cache new).1 other ≡ (
            if is_move (shown refs cache pr) new && concerns pr other
            then new
            else shown refs cache other)
    update_lifecycle-shown cache branches other new h = elim (Bool-cases (is_unpublished pr.ref)) [
      | inl u ↦
          rw
            (
              update-draft cache new u,
              is_move-published (shown refs cache pr) new (shown-draft cache u),
            )
            refl
      | inr u ↦ elim (Bool-cases (is_unpublished other.ref)) [
        | inl v ↦ rw v (
            ground
              (arith, shown-unpublished cache (update_lifecycle push pr refs cache new).1 other v))
        | inr v ↦
            rw (update-published cache branches new h u, v)
              (shown-move_lifecycle cache branches other new h u v)
      ]
    ]

    outcome-published :
        (cache f : Cache) (new : Lifecycle)
        → filled refs cache ≡ f
        → is_unpublished pr.ref ≡ false
        → (update_lifecycle push pr refs cache new).0
          ≡ (move_lifecycle push pr (cached_lifecycle f (deletion_branch pr), f) new).0
    unfolding update_lifecycle
    outcome-published cache f new e u = rw (get_lifecycle-published cache pr u, e) refl

    panics-published :
        (cache : Cache) (new : Lifecycle) (f : Cache)
        → filled refs cache ≡ f
        → is_unpublished pr.ref ≡ false
        → ((update_lifecycle push pr refs cache new).0 ≡ panicked) ↔ (
            (filled refs cache ≡ none)
            × (is_unpublished pr.ref ≡ false)
            × (new ≡ deletion_proposed))
    unfolding cached_lifecycle
    panics-published cache new none e u =
        let o = outcome-published cache none new e u in
        (
          λ p. (e, u, (nil-panics_iff push pr new).0 (sym o ∙ p)),
          λ (n, w, d). o ∙ (nil-panics_iff push pr new).1 d,
        )
    panics-published cache new (some s) e u =
        let o = outcome-published cache (some s) new e u in
        (
          λ p.
              elim (move_lifecycle-returns push pr s
                (cached_lifecycle (some s) (deletion_branch pr)) new (sym o ∙ p)) [ ],
          λ (n, w, d). cc,
        )

    -- UpdateLifecycle panics exactly if there is no cached set, the references cannot be listed, and
    -- a published revision is to be proposed for deletion: the entry is put into a nil map.
    pub update_lifecycle-panics_iff :
        (cache : Cache) (new : Lifecycle)
        → ((update_lifecycle push pr refs cache new).0 ≡ panicked) ↔ (
            (filled refs cache ≡ none)
            × (is_unpublished pr.ref ≡ false)
            × (new ≡ deletion_proposed))
    update_lifecycle-panics_iff cache new = elim (Bool-cases (is_unpublished pr.ref)) [
      | inl u ↦
          (λ e. draft_returns (sym (ap (λ r. r.0) (update-draft cache new u)) ∙ e), λ (n, p, d). cc)
      | inr u ↦ panics-published cache new (filled refs cache) refl u
    ]
