-- ===== src/VariantSets/Entries.antt =====
-- The maps of package variants by their identifiers.
use porch.Common.{
  is_some, Bool, true, false, not, ◌&&◌, ◌||◌, ◌≡◌, refl, sym, ap, ◌∙◌, arith, Text, eqb, eqb→eq,
  List, [], ◌∷◌, Option, none, some, if◌then◌else◌, any, All, Bool-cases, inl, inr, Memᴰ,
}
use porch.Common.Tables.{lookup, insert, lookup-insert}
use porch.VariantSets.{VariantSpec, PackageVariant, Cluster, by_identifier}
use porch.VariantSets.Ensured.{id, is_undesired, has_id}
use porch.VariantSets.Created.{AreDistinct}

pub or_false : (b : Bool) → (b || false) ≡ b
or_false b = ground arith

module _ {Rest : Type 0} (set_name : Text) where
  pub not_given : (o : Option (VariantSpec Rest)) → is_some o ≡ false → o ≡ none
  not_given none h = refl
  not_given (some s) h = cc

  -- An entry under its own identifier, of an object of the list
  abbrev pub IsEntry : List (PackageVariant Rest) → (Text × PackageVariant Rest) → Type 0
  IsEntry all e = (id set_name e.1 ≡ e.0) × Memᴰ e.1 all

  -- Some package variant has the identifier, though it may be being deleted.
  abbrev pub has_any_id : Text → List (PackageVariant Rest) → Bool
  has_any_id i = any (λ w. eqb (id set_name w) i)

  pub live-has_id :
      (i : Text) (vs : List (PackageVariant Rest))
      → All (λ v. eqb (id set_name v) i ≡ true → v.deleting ≡ false) vs
      → has_any_id i vs ≡ has_id set_name i vs
  live-has_id i [] a = refl
  live-has_id i (v ∷ vs) a = elim (Bool-cases (eqb (id set_name v) i)) [
    | inl e ↦ ground (arith, a.0 e, live-has_id i vs a.1)
    | inr e ↦ ground (arith, live-has_id i vs a.1)
  ]

  pub has_id-has_any_id :
      (i : Text) (vs : List (PackageVariant Rest))
      → has_id set_name i vs ≡ true
      → has_any_id i vs ≡ true
  has_id-has_any_id i [] h = h
  has_id-has_any_id i (v ∷ vs) h = ground (arith, has_id-has_any_id i vs)

  pub insert-AreEntries :
      (all : List (PackageVariant Rest)) (v : PackageVariant Rest)
      (m : List (Text × PackageVariant Rest))
      → Memᴰ v all
      → All (IsEntry all) m
      → All (IsEntry all) (insert (id set_name v) v m)
  unfolding insert
  insert-AreEntries all v [] h a = ((refl, h), tt)
  insert-AreEntries all v (e ∷ m) h a = elim (Bool-cases (eqb e.0 (id set_name v))) [
    | inl y ↦ simp y ((sym (eqb→eq e.0 (id set_name v) y), h), a.1)
    | inr y ↦ simp y (a.0, insert-AreEntries all v m h a.1)
  ]

  pub by_identifier-AreEntries :
      (all vs : List (PackageVariant Rest)) (m : List (Text × PackageVariant Rest))
      → All (λ v. Memᴰ v all) vs
      → All (IsEntry all) m
      → All (IsEntry all) (by_identifier set_name vs m)
  unfolding by_identifier
  by_identifier-AreEntries all [] m b a = a
  by_identifier-AreEntries all (v ∷ vs) m b a =
      by_identifier-AreEntries all vs (insert (id set_name v) v m) b.1
        (insert-AreEntries all v m b.0 a)

  pub insert-fresh :
      (i j : Text) (v : PackageVariant Rest) (m : List (Text × PackageVariant Rest))
      → eqb i j ≡ false
      → All (λ g. eqb i g.0 ≡ false) m
      → All (λ g. eqb i g.0 ≡ false) (insert j v m)
  unfolding insert
  insert-fresh i j v [] h a = (h, tt)
  insert-fresh i j v (e ∷ m) h a = elim (Bool-cases (eqb e.0 j)) [
    | inl y ↦ simp y a
    | inr y ↦ simp y (a.0, insert-fresh i j v m h a.1)
  ]

  module _ (k : Cluster) where
    pub insert-AreDistinct :
        (j : Text) (v : PackageVariant Rest) (m : List (Text × PackageVariant Rest))
        → AreDistinct set_name k m
        → AreDistinct set_name k (insert j v m)
    unfolding insert
    insert-AreDistinct j v [] a = (tt, tt)
    insert-AreDistinct j v (e ∷ m) a = elim (Bool-cases (eqb e.0 j)) [
      | inl y ↦ simp y a
      | inr y ↦ simp y (insert-fresh e.0 j v m y a.0, insert-AreDistinct j v m a.1)
    ]

    pub by_identifier-AreDistinct :
        (vs : List (PackageVariant Rest)) (m : List (Text × PackageVariant Rest))
        → AreDistinct set_name k m
        → AreDistinct set_name k (by_identifier set_name vs m)
    unfolding by_identifier
    by_identifier-AreDistinct [] m a = a
    by_identifier-AreDistinct (v ∷ vs) m a =
        by_identifier-AreDistinct vs (insert (id set_name v) v m)
          (insert-AreDistinct (id set_name v) v m a)

  -- The last package variant with the identifier, or else the one of the map
  abbrev pub last_or :
      Text
      → List (PackageVariant Rest)
      → Option (PackageVariant Rest)
      → Option (PackageVariant Rest)
  last_or i [] o = o
  last_or i (v ∷ vs) o = last_or i vs (if eqb (id set_name v) i then some v else o)

  pub lookup-by_identifier :
      (i : Text) (vs : List (PackageVariant Rest)) (m : List (Text × PackageVariant Rest))
      → lookup i (by_identifier set_name vs m) ≡ last_or i vs (lookup i m)
  unfolding by_identifier
  lookup-by_identifier i [] m = refl
  lookup-by_identifier i (v ∷ vs) m =
      lookup-by_identifier i vs (insert (id set_name v) v m)
      ∙ ap (last_or i vs) (lookup-insert (id set_name v) i v m)

  pub found-last_or :
      (i : Text) (vs : List (PackageVariant Rest)) (o : Option (PackageVariant Rest))
      → is_some (last_or i vs o) ≡ (has_any_id i vs || is_some o)
  found-last_or i [] o = refl
  found-last_or i (v ∷ vs) o =
      ground (arith, found-last_or i vs (if eqb (id set_name v) i then some v else o))

  pub undesired-lookup :
      (i : Text) (desired es : List (Text × PackageVariant Rest))
      → any (is_undesired set_name desired i) es
        ≡ (not (is_some (lookup i desired)) && is_some (lookup i es))
  unfolding lookup
  undesired-lookup i desired [] = ground arith
  undesired-lookup i desired (e ∷ es) = elim (Bool-cases (eqb e.0 i)) [
    | inl y ↦ ground (
      arith,
      undesired-lookup i desired es,
      ap (λ t. is_some (lookup t desired)) (eqb→eq e.0 i y),
    )
    | inr y ↦ ground (arith, undesired-lookup i desired es)
  ]
