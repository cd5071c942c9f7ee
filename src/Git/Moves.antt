-- ===== src/Git/Moves.antt =====
-- One move of UpdateLifecycle on the set of deletionProposed branches
-- (pkg/externalrepo/git/git.go).
use porch.Common.{
  Bool, true, false, not, ◌&&◌, ◌||◌, ◌≡◌, ◌≢◌, ◌↔◌, refl, arith, Text, List, [], ◌∷◌, Option, none,
  some, if◌then◌else◌, eqb, eqb_iff, any, keep_if,
}
use porch.Lifecycle.{Lifecycle, published, deletion_proposed, lifecycle_eq, is_published}
use porch.Git.{is_draft_branch_name_in_local, is_proposed_branch_name_in_local, ref_in_local}
use porch.Git.Lifecycles.{
  GitPackageRevision, Cache, cached_lifecycle, get_lifecycle, RefUpdate, push_ref, delete_ref,
  PushResult, pushed, already_up_to_date, push_failed, panicked, refused_draft, push_outcome,
  lifecycle_at, deletion_branch, propose_deletion, withdraw_deletion, move_lifecycle,
}

-- Is the revision's reference a draft or a proposed branch?
abbrev pub is_unpublished : Option Text → Bool
is_unpublished none = false
is_unpublished (some name) =
    is_draft_branch_name_in_local name || is_proposed_branch_name_in_local name

-- The two moves that UpdateLifecycle makes.
abbrev pub is_move : Lifecycle → Lifecycle → Bool
is_move old new =
    (lifecycle_eq old published && lifecycle_eq new deletion_proposed)
    || (lifecycle_eq old deletion_proposed && lifecycle_eq new published)

-- The lifecycle that is shown.
abbrev pub shown : Option (List Text) → Cache → GitPackageRevision → Lifecycle
shown refs cache pr = (get_lifecycle refs cache pr).0

-- Does a move of one revision concern the other: has it the same branch, and is it published?
abbrev pub concerns : GitPackageRevision → GitPackageRevision → Bool
concerns pr other =
    not (is_unpublished other.ref) && eqb (deletion_branch pr) (deletion_branch other)

pub is_move-published : (old new : Lifecycle) → is_published old ≡ false → is_move old new ≡ false
unfolding is_published lifecycle_eq
is_move-published old new h = ground arith

pub push_outcome-returns : (r : PushResult) → push_outcome r ≢ panicked
unfolding push_outcome
push_outcome-returns pushed = cc
push_outcome-returns already_up_to_date = cc
push_outcome-returns push_failed = cc

pub draft_returns : {A : Type 0} → refused_draft ≡ panicked → A
draft_returns h = cc

pub any-without :
    (b c : Text) (s : List Text)
    → any (eqb c) (keep_if (λ x. not (eqb b x)) s) ≡ (not (eqb b c) && any (eqb c) s)
any-without b c [] = ground arith
any-without b c (x ∷ s) = ground (arith, any-without b c s, eqb_iff b x, eqb_iff c x, eqb_iff b c)

pub lifecycle_at-published :
    (p : Lifecycle × Cache) (c : Cache) (r : Option Text)
    → is_unpublished r ≡ false
    → lifecycle_at p c r ≡ p
unfolding lifecycle_at
lifecycle_at-published p c none h = refl
lifecycle_at-published p c (some n) h = ground arith

pub lifecycle_at-unpublished :
    (p q : Lifecycle × Cache) (c d : Cache) (r : Option Text)
    → is_unpublished r ≡ true
    → (lifecycle_at p c r).0 ≡ (lifecycle_at q d r).0
unfolding lifecycle_at
lifecycle_at-unpublished p q c d none h = cc
lifecycle_at-unpublished p q c d (some n) h = ground arith

pub lifecycle_at-old :
    (p : Lifecycle × Cache) (c : Cache) (r : Option Text)
    → is_unpublished r ≡ true
    → ((is_published (lifecycle_at p c r).0 ≡ false) × ((lifecycle_at p c r).1 ≡ c))
unfolding lifecycle_at is_published lifecycle_eq
lifecycle_at-old p c none h = cc
lifecycle_at-old p c (some n) h = ground arith

module _ (push : RefUpdate → PushResult) (pr : GitPackageRevision) where
  -- The cache after a move.
  abbrev pub moved : Bool → Lifecycle → List Text → List Text
  moved true deletion_proposed s = deletion_branch pr ∷ s
  moved true _ s = keep_if (λ b. not (eqb (deletion_branch pr) b)) s
  moved false new s = s

  pub move_lifecycle-moved :
      (s : List Text) (old new : Lifecycle)
      → is_published old ≡ true
      → (move_lifecycle push pr (old, some s) new).1 ≡ some (moved (is_move old new) new s)
  unfolding move_lifecycle propose_deletion withdraw_deletion is_published lifecycle_eq
  move_lifecycle-moved s published deletion_proposed h = refl
  move_lifecycle-moved s published new h = ground arith
  move_lifecycle-moved s deletion_proposed published h = refl
  move_lifecycle-moved s deletion_proposed new h = ground arith
  move_lifecycle-moved s old new h = ground arith

  pub move_lifecycle-returns :
      (s : List Text) (old new : Lifecycle)
      → (move_lifecycle push pr (old, some s) new).0 ≢ panicked
  unfolding move_lifecycle propose_deletion withdraw_deletion
  move_lifecycle-returns s old new = ground (
    arith,
    push_outcome-returns (push (push_ref pr.commit (ref_in_local (deletion_branch pr)))),
    push_outcome-returns (push (delete_ref pr.commit (ref_in_local (deletion_branch pr)))),
  )

  pub nil-panics_iff :
      (new : Lifecycle)
      → ((move_lifecycle push pr (published, none) new).0 ≡ panicked) ↔ (new ≡ deletion_proposed)
  unfolding move_lifecycle propose_deletion is_published lifecycle_eq
  nil-panics_iff deletion_proposed = (λ e. refl, λ e. refl)
  nil-panics_iff new = (λ e. cc, λ e. cc)

  pub cached_lifecycle-moved :
      (s : List Text) (old new : Lifecycle) (c : Text)
      → cached_lifecycle (some s) (deletion_branch pr) ≡ old
      → cached_lifecycle (some (moved (is_move old new) new s)) c ≡ (
          if is_move old new && eqb (deletion_branch pr) c
          then new
          else cached_lifecycle (some s) c)
  unfolding cached_lifecycle lifecycle_eq
  cached_lifecycle-moved s published deletion_proposed c h =
      ground (arith, eqb_iff (deletion_branch pr) c, eqb_iff c (deletion_branch pr))
  cached_lifecycle-moved s deletion_proposed published c h =
      ground (arith, any-without (deletion_branch pr) c s)
  cached_lifecycle-moved s published new c h = ground arith
  cached_lifecycle-moved s deletion_proposed new c h = ground arith
  cached_lifecycle-moved s old new c h = ground arith
