-- ===== src/Lifecycle.antt =====
-- The lifecycle of a package revision: api/porch/v1alpha1/util.go, api/porch/v1alpha2/util.go and
-- the constants of the two types.go files, which are the same in both versions.
pub mod Readiness
use porch.Common.{
  Bool, true, false, ◌||◌, ◌≡◌, ◌↔◌, ◌≢◌, ◌⊎◌, inl, inr, refl, arith, Text, eqb, eqb_iff, codes,
}

-- The Go type is a string. `other` holds a text that is none of the five below.
pub data Lifecycle : Type 0 where
  unset draft proposed published deletion_proposed : Lifecycle
  other : Text → Lifecycle

-- a == b
unfoldable pub lifecycle_eq : Lifecycle → Lifecycle → Bool
lifecycle_eq unset unset = true
lifecycle_eq draft draft = true
lifecycle_eq proposed proposed = true
lifecycle_eq published published = true
lifecycle_eq deletion_proposed deletion_proposed = true
lifecycle_eq (other a) (other b) = eqb a b
lifecycle_eq _ _ = false

pub lifecycle_eq→eq : (a b : Lifecycle) → lifecycle_eq a b ≡ true → a ≡ b
unfolding lifecycle_eq
lifecycle_eq→eq (other a) (other b) h = ground (arith, eqb_iff a b)
lifecycle_eq→eq a b h = ground arith

pub lifecycle_eq_refl : (a : Lifecycle) → lifecycle_eq a a ≡ true
unfolding lifecycle_eq
lifecycle_eq_refl (other a) = (eqb_iff a a).1 refl
lifecycle_eq_refl unset = refl
lifecycle_eq_refl _ = refl

pub lifecycle_eq_iff : (a b : Lifecycle) → (lifecycle_eq a b ≡ true) ↔ (a ≡ b)
lifecycle_eq_iff a b = (lifecycle_eq→eq a b, λ e. rw e (lifecycle_eq_refl b))

-- LifecycleIsPublished
unfoldable pub is_published : Lifecycle → Bool
unfolding lifecycle_eq
is_published l = lifecycle_eq l published || lifecycle_eq l deletion_proposed

-- LifecycleIsDraft
unfoldable pub is_draft : Lifecycle → Bool
unfolding lifecycle_eq
is_draft l = lifecycle_eq l draft || lifecycle_eq l proposed

-- (l *PackageRevisionLifecycle) IsValid
unfoldable pub is_valid : Lifecycle → Bool
is_valid draft = true
is_valid proposed = true
is_valid published = true
is_valid deletion_proposed = true
is_valid _ = false
