-- ===== src/VariantSets/Asked.antt =====
-- What the downstreams of a set ask for, and the package variants made of it.
use porch.Common.{
  is_some, Bool, true, false, ◌≡◌, refl, ap, ◌∙◌, Text, eqb, eqb→eq, List, [], ◌∷◌, Option, none,
  some, if◌then◌else◌, map, All, Memᴰ,
}
use porch.Common.Tables.{lookup}
use porch.VariantSets.{
  VariantSpec, PackageVariant, Cluster, package_variant_identifier, by_identifier, desired_variant,
}
use porch.VariantSets.Ensured.{id}
use porch.VariantSets.Created.{spec_or}
use porch.VariantSets.Entries.{last_or, lookup-by_identifier}

module _ {Rest : Type 0} (set_name : Text) where
  -- The spec that is asked for last under the identifier
  abbrev pub asked_spec :
      Text → List (VariantSpec Rest) → Option (VariantSpec Rest) → Option (VariantSpec Rest)
  asked_spec i [] o = o
  asked_spec i (s ∷ ss) o =
      asked_spec i ss (if eqb (package_variant_identifier set_name s) i then some s else o)

  chosen_spec :
      (k : Cluster) (b : Bool) (d : PackageVariant Rest) (o : Option (PackageVariant Rest))
      → spec_or set_name k (if b then some d else o) none
        ≡ (if b then some d.spec else spec_or set_name k o none)
  chosen_spec k true d o = refl
  chosen_spec k false d o = refl

  pub asked-last_or :
      (digest : Text → Text) (i : Text) (ss : List (VariantSpec Rest)) (k : Cluster)
      (o : Option (PackageVariant Rest))
      → spec_or set_name k
          (last_or set_name i (map (λ s. desired_variant set_name digest s) ss) o)
          none
        ≡ asked_spec i ss (spec_or set_name k o none)
  unfolding desired_variant
  asked-last_or digest i [] k o = refl
  asked-last_or digest i (s ∷ ss) k o =
      asked-last_or digest i ss k (
        if eqb (package_variant_identifier set_name s) i
        then some (desired_variant set_name digest s)
        else o)
      ∙ ap (asked_spec i ss) (
          chosen_spec k (eqb (package_variant_identifier set_name s) i)
            (desired_variant set_name digest s) o)

  pub live_member :
      (v : PackageVariant Rest) (all : List (PackageVariant Rest))
      → All (λ v. v.deleting ≡ false) all
      → Memᴰ v all
      → v.deleting ≡ false
  live_member v [] a m = elim m [ ]
  live_member v (w ∷ ws) a (Memᴰ.head e) = ap (λ (u : PackageVariant Rest). u.deleting) e ∙ a.0
  live_member v (w ∷ ws) a (Memᴰ.tail m) = live_member v ws a.1 m

  pub desired-live :
      (digest : Text → Text) (ss : List (VariantSpec Rest))
      → All (λ v. v.deleting ≡ false) (map (λ s. desired_variant set_name digest s) ss)
  unfolding desired_variant
  desired-live digest [] = tt
  desired-live digest (s ∷ ss) = (refl, desired-live digest ss)

  spec_or-given :
      (k : Cluster) (o : Option (PackageVariant Rest))
      → is_some o ≡ is_some (spec_or set_name k o none)
  spec_or-given k none = refl
  spec_or-given k (some d) = refl

  pub desired-asked :
      (k : Cluster) (digest : Text → Text) (specs : List (VariantSpec Rest)) (i : Text)
      → is_some (
          lookup i (by_identifier set_name (map (λ s. desired_variant set_name digest s) specs) []))
        ≡ is_some (asked_spec i specs none)
  unfolding lookup
  desired-asked k digest specs i =
      let variants = map (λ s. desired_variant set_name digest s) specs in
      ap is_some (lookup-by_identifier set_name i variants [])
      ∙ spec_or-given k (last_or set_name i variants none)
      ∙ ap is_some (asked-last_or digest i specs k none)

  pub live_under :
      (specs : List (VariantSpec Rest)) (vs : List (PackageVariant Rest)) (i : Text)
      → All (λ v. is_some (asked_spec (id set_name v) specs none) ≡ true → v.deleting ≡ false) vs
      → is_some (asked_spec i specs none) ≡ true
      → All (λ v. eqb (id set_name v) i ≡ true → v.deleting ≡ false) vs
  live_under specs [] i a h = tt
  live_under specs (v ∷ vs) i a h = (
    λ e. a.0 (ap (λ j. is_some (asked_spec j specs none)) (eqb→eq (id set_name v) i e) ∙ h),
    live_under specs vs i a.1 h,
  )
