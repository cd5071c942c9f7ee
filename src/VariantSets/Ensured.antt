-- ===== src/VariantSets/Ensured.antt =====
-- The package variants of a set after its reconciliation.
use porch.Common.{
  false, is_some, Bool, true, not, ◌&&◌, ◌≡◌, refl, sym, ap, ◌∙◌, subst, arith, Text, eqb, eqb_iff,
  eqb→eq, List, [], ◌∷◌, Option, none, some, some-injective, if◌then◌else◌, any, All, Bool-cases,
  inl, inr,
}
use porch.Common.Tables.{lookup}
use porch.VariantSets.{
  VariantSpec, PackageVariant, Cluster, package_variant_identifier, delete_undesired, update_spec,
  has_finalizer, delete_object,
}

module _ {Rest : Type 0} (set_name : Text) where
  abbrev pub id : PackageVariant Rest → Text
  id v = package_variant_identifier set_name v.spec

  -- The package variant is not being deleted, and has the identifier.
  abbrev pub is_live : Text → PackageVariant Rest → Bool
  is_live i v = not v.deleting && eqb (package_variant_identifier set_name v.spec) i

  -- The spec of the first package variant with the identifier that is not being deleted
  abbrev pub spec_of : Text → List (PackageVariant Rest) → Option (VariantSpec Rest)
  spec_of i [] = none
  spec_of i (v ∷ vs) = if is_live i v then some v.spec else spec_of i vs

  -- The object `v` is the only one with its name, and with the identifier.
  abbrev pub IsOnly : List (PackageVariant Rest) → Text → PackageVariant Rest → Type 0
  IsOnly stored i v = All (λ w. eqb w.name v.name ≡ eqb (id w) i) stored

  spec_of-delete :
      (i j : Text) (v : PackageVariant Rest) (stored : List (PackageVariant Rest))
      → IsOnly stored j v
      → spec_of i (delete_object v.name stored) ≡ (if eqb j i then none else spec_of i stored)
  unfolding delete_object
  spec_of-delete i j v [] a = ground arith
  spec_of-delete i j v (w ∷ ws) a = elim (Bool-cases (eqb w.name v.name)) [
    | inl e ↦
        let same = eqb→eq (id w) j (sym a.0 ∙ e) in
        let ih = spec_of-delete i j v ws a.1 in
        elim (Bool-cases (has_finalizer w.finalizers)) [
          | inl f ↦ simp (e, f) (ih ∙ ground (arith, ap (λ t. eqb t i) same))
          | inr f ↦ simp (e, f) (ih ∙ ground (arith, ap (λ t. eqb t i) same))
        ]
    | inr e ↦
        ground
          (arith, spec_of-delete i j v ws a.1, a.0, eqb_iff (id w) i, eqb_iff (id w) j, eqb_iff j i)
  ]

  abbrev pub has_id : Text → List (PackageVariant Rest) → Bool
  has_id i = any (is_live i)

  pub spec_of-update :
      (i j : Text) (v : PackageVariant Rest) (s : VariantSpec Rest)
      (stored : List (PackageVariant Rest))
      → package_variant_identifier set_name s ≡ j
      → IsOnly stored j v
      → spec_of i (update_spec v.name s stored)
        ≡ (if eqb j i then (if has_id j stored then some s else none) else spec_of i stored)
  spec_of-update i j v s [] e a = ground arith
  spec_of-update i j v s (w ∷ ws) e a = elim (Bool-cases (eqb w.name v.name)) [
    | inl n ↦
        let same = eqb→eq (id w) j (sym a.0 ∙ n) in
        ground (
          arith,
          spec_of-update i j v s ws e a.1,
          ap (λ t. eqb t i) same,
          ap (λ t. eqb t i) e,
          sym a.0 ∙ n,
        )
    | inr n ↦ ground (
      arith,
      spec_of-update i j v s ws e a.1,
      a.0,
      eqb_iff (id w) i,
      eqb_iff (id w) j,
      eqb_iff j i,
    )
  ]

  pub has_id-spec_of :
      (i : Text) (stored : List (PackageVariant Rest))
      → has_id i stored ≡ is_some (spec_of i stored)
  has_id-spec_of i [] = refl
  has_id-spec_of i (w ∷ ws) = ground (arith, has_id-spec_of i ws)

  IsOnly-delete :
      (name j : Text) (v : PackageVariant Rest) (stored : List (PackageVariant Rest))
      → IsOnly stored j v
      → IsOnly (delete_object name stored) j v
  unfolding delete_object
  IsOnly-delete name j v [] a = tt
  IsOnly-delete name j v (w ∷ ws) a = elim (Bool-cases (eqb w.name name)) [
    | inr e ↦ simp e (a.0, IsOnly-delete name j v ws a.1)
    | inl e ↦ elim (Bool-cases (has_finalizer w.finalizers)) [
      | inl f ↦ simp (e, f) (a.0, IsOnly-delete name j v ws a.1)
      | inr f ↦ simp (e, f) (IsOnly-delete name j v ws a.1)
    ]
  ]

  abbrev pub AreOnly : List (PackageVariant Rest) → List (Text × PackageVariant Rest) → Type 0
  AreOnly stored = All (λ e. IsOnly stored e.0 e.1)

  AreOnly-delete :
      (name : Text) (es : List (Text × PackageVariant Rest)) (stored : List (PackageVariant Rest))
      → AreOnly stored es
      → AreOnly (delete_object name stored) es
  AreOnly-delete name [] stored a = tt
  AreOnly-delete name (e ∷ es) stored a =
      (IsOnly-delete name e.0 e.1 stored a.0, AreOnly-delete name es stored a.1)

  abbrev pub is_undesired :
      List (Text × PackageVariant Rest) → Text → (Text × PackageVariant Rest) → Bool
  is_undesired desired i e = not (is_some (lookup e.0 desired)) && eqb e.0 i

  -- What the first loop leaves
  pub delete-spec_of :
      (k : Cluster) (desired es : List (Text × PackageVariant Rest))
      (stored after : List (PackageVariant Rest)) (i : Text)
      → AreOnly stored es
      → delete_undesired set_name k desired es stored ≡ some after
      → spec_of i after ≡ (if any (is_undesired desired i) es then none else spec_of i stored)
  unfolding delete_undesired
  delete-spec_of k desired [] stored after i a h =
      ap (spec_of i) (sym (some-injective stored after h))
  delete-spec_of k desired ((j, v) ∷ es) stored after i a h =
      elim (Bool-cases (is_some (lookup j desired))) [
        | inl f ↦ simp f (delete-spec_of k desired es stored after i a.1 (simp f at h))
        | inr f ↦ elim (Bool-cases (k.delete_fails v.name)) [
          | inl g ↦ cc (simp (f, g) at h)
          | inr g ↦
              let less = delete_object v.name stored in
              let now = spec_of-delete i j v stored a.0 in
              let later =
                delete-spec_of k desired es less after i (AreOnly-delete v.name es stored a.1)
                  (simp (f, g) at h) in
              ground (arith, now, later)
        ]
      ]

  pub delete-AreOnly :
      (k : Cluster) (desired es fs : List (Text × PackageVariant Rest))
      (stored after : List (PackageVariant Rest))
      → AreOnly stored fs
      → delete_undesired set_name k desired es stored ≡ some after
      → AreOnly after fs
  unfolding delete_undesired
  delete-AreOnly k desired [] fs stored after a h =
      subst (λ s. AreOnly s fs) (some-injective stored after h) a
  delete-AreOnly k desired ((j, v) ∷ es) fs stored after a h =
      elim (Bool-cases (is_some (lookup j desired))) [
        | inl f ↦ delete-AreOnly k desired es fs stored after a (simp f at h)
        | inr f ↦ elim (Bool-cases (k.delete_fails v.name)) [
          | inl g ↦ cc (simp (f, g) at h)
          | inr g ↦
              delete-AreOnly k desired es fs (delete_object v.name stored) after
                (AreOnly-delete v.name fs stored a) (simp (f, g) at h)
        ]
      ]

  -- A desired package variant under its identifier, which may be stored under the name of `v`.
  abbrev pub IsReady :
      List (Text × PackageVariant Rest)
      → List (PackageVariant Rest)
      → (Text × PackageVariant Rest)
      → Type 0
  IsReady existing stored e =
      ((id e.1 ≡ e.0) × (e.1.deleting ≡ false))
      × ((v : PackageVariant Rest)
          → lookup e.0 existing ≡ some v
          → IsOnly stored e.0 v × (has_id e.0 stored ≡ true))

  pub IsOnly-update :
      (i j : Text) (v : PackageVariant Rest) (s : VariantSpec Rest) (u : PackageVariant Rest)
      (stored : List (PackageVariant Rest))
      → package_variant_identifier set_name s ≡ j
      → IsOnly stored j u
      → IsOnly stored i v
      → IsOnly (update_spec u.name s stored) i v
  IsOnly-update i j v s u [] e a b = tt
  IsOnly-update i j v s u (w ∷ ws) e a b = elim (Bool-cases (eqb w.name u.name)) [
    | inl n ↦
        let same = eqb→eq (id w) j (sym a.0 ∙ n) in
        simp n (b.0 ∙ ap (λ t. eqb t i) (same ∙ sym e), IsOnly-update i j v s u ws e a.1 b.1)
    | inr n ↦ simp n (b.0, IsOnly-update i j v s u ws e a.1 b.1)
  ]
