-- ===== src/VariantSets/Reconciled.antt =====
-- The package variants of a set are those that its downstreams ask for.
use porch.Common.{
  is_some, true, false, ◌≡◌, refl, sym, ap, ◌∙◌, subst, arith, Text, eqb, eqb_iff, eqb→eq, List, [],
  ◌∷◌, Option, none, some, some-injective, if◌then◌else◌, map, All, All-mem, Bool-cases, inl, inr,
  Memᴰ,
}
use porch.Common.Tables.{lookup}
use porch.VariantSets.{
  VariantSpec, PackageVariant, Cluster, package_variant_identifier, by_identifier, desired_variant,
  delete_undesired, ensure_desired, ensure_package_variants,
}
use porch.VariantSets.Ensured.{
  id, spec_of, IsOnly, AreOnly, has_id, has_id-spec_of, delete-spec_of, delete-AreOnly,
}
use porch.VariantSets.Created.{AreReady, spec_or, next-inverse, desired-spec_of}
use porch.VariantSets.Asked.{
  asked_spec, asked-last_or, live_member, desired-live, desired-asked, live_under,
}
use porch.VariantSets.Entries.{
  or_false, has_any_id, live-has_id, has_id-has_any_id, not_given, IsEntry,
  by_identifier-AreEntries, lookup-by_identifier, found-last_or, undesired-lookup,
  by_identifier-AreDistinct,
}

module _ {Rest : Type 0} (set_name : Text) where
  -- Two objects of the list have one name exactly if they have one identifier.
  abbrev pub AreAligned : List (PackageVariant Rest) → Type 0
  AreAligned stored =
      (v w : PackageVariant Rest)
      → Memᴰ v stored
      → Memᴰ w stored
      → eqb w.name v.name
        ≡ eqb (package_variant_identifier set_name w.spec)
            (package_variant_identifier set_name v.spec)

  entries-AreOnly :
      (all : List (PackageVariant Rest)) (es : List (Text × PackageVariant Rest))
      → AreAligned all
      → All (IsEntry set_name all) es
      → AreOnly set_name all es
  entries-AreOnly all [] d a = tt
  entries-AreOnly all (e ∷ es) d a = (
    All-mem (λ w. eqb w.name e.1.name ≡ eqb (id set_name w) e.0) all
        (λ w m. d e.1 w a.0.1 m ∙ ap (eqb (id set_name w)) a.0.0),
    entries-AreOnly all es d a.1,
  )

  found-IsOnly :
      (i : Text) (v : PackageVariant Rest) (s : List (PackageVariant Rest))
      (es : List (Text × PackageVariant Rest))
      → AreOnly set_name s es
      → lookup i es ≡ some v
      → IsOnly set_name s i v
  unfolding lookup
  found-IsOnly i v s [] a h = cc
  found-IsOnly i v s (e ∷ es) a h = elim (Bool-cases (eqb e.0 i)) [
    | inl y ↦
        subst (λ u. IsOnly set_name s i u) (some-injective e.1 v (simp y at h))
          (subst (λ t. IsOnly set_name s t e.1) (eqb→eq e.0 i y) a.0)
    | inr y ↦ found-IsOnly i v s es a.1 (simp y at h)
  ]

  AreReady-entries :
      (k : Cluster) (existing : List (Text × PackageVariant Rest))
      (all s : List (PackageVariant Rest)) (ds : List (Text × PackageVariant Rest))
      → AreOnly set_name s existing
      → All (λ e. has_id set_name e.0 s ≡ is_some (lookup e.0 existing)) ds
      → All (λ v. v.deleting ≡ false) all
      → All (IsEntry set_name all) ds
      → AreReady set_name k existing s ds
  AreReady-entries k existing all s [] a f live b = tt
  AreReady-entries k existing all s (e ∷ ds) a f live b = (
    (
      (b.0.0, live_member set_name e.1 all live b.0.1),
      λ v m. (found-IsOnly e.0 v s existing a m, f.0 ∙ ap is_some m),
    ),
    AreReady-entries k existing all s ds a f.1 live b.1,
  )

  self-mem : (vs : List (PackageVariant Rest)) → All (λ v. Memᴰ v vs) vs
  self-mem vs = All-mem (λ v. Memᴰ v vs) vs (λ v m. m)

  key-found :
      (e : Text × PackageVariant Rest) (ds : List (Text × PackageVariant Rest))
      → Memᴰ e ds
      → is_some (lookup e.0 ds) ≡ true
  unfolding lookup
  key-found e [] m = elim m [ ]
  key-found e (g ∷ ds) (Memᴰ.head q) =
      ground (arith, ap (λ (z : Text × PackageVariant Rest). z.0) q, eqb_iff g.0 e.0)
  key-found e (g ∷ ds) (Memᴰ.tail m) = ground (arith, key-found e ds m)

  left_or :
      (k : Cluster) (o : Option (PackageVariant Rest)) (s : Option (VariantSpec Rest))
      → spec_or set_name k o (if is_some o then s else none) ≡ spec_or set_name k o none
  left_or k none s = refl
  left_or k (some d) s = refl

  existing-has_any_id :
      (i : Text) (stored : List (PackageVariant Rest))
      → is_some (lookup i (by_identifier set_name stored [])) ≡ has_any_id set_name i stored
  existing-has_any_id i stored =
      ap is_some (lookup-by_identifier set_name i stored [])
      ∙ found-last_or set_name i stored (lookup i [])
      ∙ unfold lookup in or_false (has_any_id set_name i stored)

  -- What the first loop leaves under an identifier
  left-spec_of :
      (k : Cluster) (desired : List (Text × PackageVariant Rest))
      (stored s : List (PackageVariant Rest)) (i : Text)
      → AreOnly set_name stored (by_identifier set_name stored [])
      → delete_undesired set_name k desired (by_identifier set_name stored []) stored ≡ some s
      → spec_of set_name i s
        ≡ (if is_some (lookup i desired) then spec_of set_name i stored else none)
  left-spec_of k desired stored s i a h =
      let left =
        delete-spec_of set_name k desired (by_identifier set_name stored []) stored s i a h in
      ground (
        arith,
        left,
        undesired-lookup set_name i desired (by_identifier set_name stored []),
        existing-has_any_id i stored,
        has_id-has_any_id set_name i stored,
        has_id-spec_of set_name i stored,
        not_given set_name (spec_of set_name i stored),
      )

-- If the reconciliation of a set succeeds, where none of its package variants under an identifier that
-- the downstreams ask for is being deleted, and two of its package variants have one name exactly if they
-- have one identifier, then for each identifier the package variant under it that is not being deleted
-- has the spec that the downstreams ask for last, and if they ask for none, there is none: each that had
-- the identifier is gone or being deleted.
pub ensure-asked :
    {Rest : Type 0} (set_name : Text) (k : Cluster) (digest : Text → Text)
    (specs : List (VariantSpec Rest)) (stored after : List (PackageVariant Rest)) (i : Text)
    → All
        (λ v.
          is_some (asked_spec set_name (package_variant_identifier set_name v.spec) specs none)
            ≡ true
          → v.deleting ≡ false)
        stored
    → AreAligned set_name stored
    → ensure_package_variants set_name k digest specs stored ≡ some after
    → spec_of set_name i after ≡ asked_spec set_name i specs none
unfolding ensure_package_variants
ensure-asked set_name k digest specs stored after i live aligned h =
    let existing = by_identifier set_name stored [] in
    let variants = map (λ s. desired_variant set_name digest s) specs in
    let desired = by_identifier set_name variants [] in
    let (s, f, g) =
      next-inverse set_name k (delete_undesired set_name k desired existing stored)
        (λ s. ensure_desired set_name k existing desired s) after h in
    let only =
      entries-AreOnly set_name stored existing aligned
        (by_identifier-AreEntries set_name stored stored [] (self-mem set_name stored) tt) in
    let kept : All (λ e. has_id set_name e.0 s ≡ is_some (lookup e.0 existing)) desired =
      All-mem (λ e. has_id set_name e.0 s ≡ is_some (lookup e.0 existing)) desired
        (λ e m.
          has_id-spec_of set_name e.0 s
          ∙ ap (is_some) (left-spec_of set_name k desired stored s e.0 only f)
          ∙ ap (λ b. is_some (if b then spec_of set_name e.0 stored else none))
              (key-found set_name e desired m)
          ∙ sym (has_id-spec_of set_name e.0 stored)
          ∙ sym (
              existing-has_any_id set_name e.0 stored
              ∙ live-has_id set_name e.0 stored (
                  live_under set_name specs stored e.0 live (
                    sym (desired-asked set_name k digest specs e.0)
                    ∙ key-found set_name e desired m)))) in
    let ready =
      AreReady-entries set_name k existing variants s desired
        (delete-AreOnly set_name k desired existing existing stored s only f) kept
        (desired-live set_name digest specs)
        (by_identifier-AreEntries set_name variants variants [] (self-mem set_name variants) tt) in
    desired-spec_of set_name k i existing desired s after ready
      (by_identifier-AreDistinct set_name k variants [] tt) g
    ∙ ap (spec_or set_name k (lookup i desired)) (left-spec_of set_name k desired stored s i only f)
    ∙ left_or set_name k (lookup i desired) (spec_of set_name i stored)
    ∙ ap (λ o. spec_or set_name k o none) (lookup-by_identifier set_name i variants [])
    ∙ unfold lookup in asked-last_or set_name digest i specs k none
