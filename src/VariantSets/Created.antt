-- ===== src/VariantSets/Created.antt =====
-- The loop over the desired package variants of a set.
use porch.Common.{
  not, ◌&&◌, is_some, true, false, ◌||◌, ◌≡◌, refl, sym, ap, ◌∙◌, subst, arith, Text, eqb, eqb_iff,
  List, [], ◌∷◌, Option, none, some, some-injective, if◌then◌else◌, any, All, Bool-cases, inl, inr,
}
use porch.Common.Tables.{lookup}
use porch.VariantSets.{
  VariantSpec, PackageVariant, Cluster, update_spec, ensure_one, and_next, ensure_desired,
}
use porch.VariantSets.Ensured.{
  id, is_live, spec_of, IsOnly, has_id, has_id-spec_of, spec_of-update, IsOnly-update, IsReady,
}

module _ {Rest : Type 0} (set_name : Text) (k : Cluster) where
  IsOnly-create :
      (j : Text) (d v : PackageVariant Rest) (stored : List (PackageVariant Rest))
      → eqb (id set_name d) j ≡ false
      → any (λ w. eqb w.name d.name) stored ≡ false
      → IsOnly set_name stored j v
      → has_id set_name j stored ≡ true
      → eqb d.name v.name ≡ false
  IsOnly-create j d v [] n c a h = cc
  IsOnly-create j d v (w ∷ ws) n c a h = elim (Bool-cases (is_live set_name j w)) [
    | inl e ↦
        ground (arith, a.0, e, eqb_iff w.name v.name, eqb_iff w.name d.name, eqb_iff d.name v.name)
    | inr e ↦ IsOnly-create j d v ws n (ground arith) a.1 (simp e at h)
  ]

  one-spec_of :
      (i : Text) (e : Text × PackageVariant Rest) (existing : List (Text × PackageVariant Rest))
      (o : Option (PackageVariant Rest)) (stored after : List (PackageVariant Rest))
      → lookup e.0 existing ≡ o
      → IsReady set_name existing stored e
      → ensure_one set_name k e.1 o stored ≡ some after
      → spec_of set_name i after ≡ (if eqb e.0 i then some e.1.spec else spec_of set_name i stored)
  one-spec_of i (j, d) existing (some v) stored after l r h =
      elim (Bool-cases (k.update_fails v.name)) [
        | inl f ↦ cc (simp f at h)
        | inr f ↦
            let same = some-injective (update_spec v.name d.spec stored) after (simp f at h) in
            let (only, given) = r.1 v l in
            ap (spec_of set_name i) (sym same)
            ∙ spec_of-update set_name i j v d.spec stored r.0.0 only
            ∙ ap
                (λ b.
                  if eqb j i then (if b then some d.spec else none) else spec_of set_name i stored)
                given
      ]
  one-spec_of i (j, d) existing none stored after l r h =
      elim (Bool-cases
        (k.create_fails d.name || (k.taken d.name || any (λ w. eqb w.name d.name) stored))) [
          | inl f ↦ cc (simp f at h)
          | inr f ↦
              ap (spec_of set_name i) (sym (some-injective (d ∷ stored) after (simp f at h)))
              ∙ ap
                  (λ b.
                    if not b && eqb (id set_name d) i
                    then some d.spec
                    else spec_of set_name i stored)
                  r.0.1
              ∙ ap (λ t. if eqb t i then some d.spec else spec_of set_name i stored) r.0.0
        ]

  one-IsOnly :
      (e : Text × PackageVariant Rest) (j : Text) (existing : List (Text × PackageVariant Rest))
      (o : Option (PackageVariant Rest)) (stored after : List (PackageVariant Rest))
      (v : PackageVariant Rest)
      → lookup e.0 existing ≡ o
      → IsReady set_name existing stored e
      → ensure_one set_name k e.1 o stored ≡ some after
      → eqb e.0 j ≡ false
      → IsOnly set_name stored j v × (has_id set_name j stored ≡ true)
      → IsOnly set_name after j v
  one-IsOnly (i, d) j existing (some u) stored after v l r h n p =
      elim (Bool-cases (k.update_fails u.name)) [
        | inl f ↦ cc (simp f at h)
        | inr f ↦
            subst (λ s. IsOnly set_name s j v)
              (some-injective (update_spec u.name d.spec stored) after (simp f at h))
              (IsOnly-update set_name j i v d.spec u stored r.0.0 (r.1 u l).0 p.0)
      ]
  one-IsOnly (i, d) j existing none stored after v l r h n p =
      elim (Bool-cases
        (k.create_fails d.name || (k.taken d.name || any (λ w. eqb w.name d.name) stored))) [
          | inl f ↦ cc (simp f at h)
          | inr f ↦
              let other : eqb (id set_name d) j ≡ false = ap (λ t. eqb t j) r.0.0 ∙ n in
              subst (λ s. IsOnly set_name s j v) (some-injective (d ∷ stored) after (simp f at h))
                (IsOnly-create j d v stored other (ground arith) p.0 p.1 ∙ sym other, p.0)
        ]

  one-IsReady :
      (e g : Text × PackageVariant Rest) (existing : List (Text × PackageVariant Rest))
      (o : Option (PackageVariant Rest)) (stored after : List (PackageVariant Rest))
      → lookup e.0 existing ≡ o
      → IsReady set_name existing stored e
      → ensure_one set_name k e.1 o stored ≡ some after
      → eqb e.0 g.0 ≡ false
      → IsReady set_name existing stored g
      → IsReady set_name existing after g
  one-IsReady e g existing o stored after l r h n q = (
    q.0,
    λ v m. (
      one-IsOnly e g.0 existing o stored after v l r h n (q.1 v m),
      has_id-spec_of set_name g.0 after
          ∙ ap (is_some) (one-spec_of g.0 e existing o stored after l r h)
          ∙ ap (λ b. is_some (if b then some e.1.spec else spec_of set_name g.0 stored)) n
          ∙ sym (has_id-spec_of set_name g.0 stored)
          ∙ (q.1 v m).1,
    ),
  )

  -- No two entries have one key.
  abbrev pub AreDistinct : List (Text × PackageVariant Rest) → Type 0
  AreDistinct [] = Unit
  AreDistinct (e ∷ es) = All (λ g. eqb e.0 g.0 ≡ false) es × AreDistinct es

  abbrev pub AreReady :
      List (Text × PackageVariant Rest)
      → List (PackageVariant Rest)
      → List (Text × PackageVariant Rest)
      → Type 0
  AreReady existing stored = All (λ e. IsReady set_name existing stored e)

  one-AreReady :
      (e : Text × PackageVariant Rest) (gs existing : List (Text × PackageVariant Rest))
      (stored after : List (PackageVariant Rest))
      → IsReady set_name existing stored e
      → ensure_one set_name k e.1 (lookup e.0 existing) stored ≡ some after
      → All (λ g. eqb e.0 g.0 ≡ false) gs
      → AreReady existing stored gs
      → AreReady existing after gs
  one-AreReady e [] existing stored after r h n a = tt
  one-AreReady e (g ∷ gs) existing stored after r h n a = (
    one-IsReady e g existing (lookup e.0 existing) stored after refl r h n.0 a.0,
    one-AreReady e gs existing stored after r h n.1 a.1,
  )

  abbrev pub spec_or :
      Option (PackageVariant Rest) → Option (VariantSpec Rest) → Option (VariantSpec Rest)
  spec_or none s = s
  spec_or (some d) s = some d.spec

  pub next-inverse :
      (o : Option (List (PackageVariant Rest)))
      (f : List (PackageVariant Rest) → Option (List (PackageVariant Rest)))
      (s : List (PackageVariant Rest))
      → and_next o f ≡ some s
      → (t : List (PackageVariant Rest)) × (o ≡ some t) × (f t ≡ some s)
  next-inverse none f s h = cc
  next-inverse (some t) f s h = (t, refl, h)

  absent_key :
      (i j : Text) (es : List (Text × PackageVariant Rest))
      → All (λ g. eqb j g.0 ≡ false) es
      → eqb j i ≡ true
      → lookup i es ≡ none
  unfolding lookup
  absent_key i j [] a h = refl
  absent_key i j (g ∷ es) a h =
      ground (arith, a.0, eqb_iff j i, eqb_iff g.0 i, eqb_iff j g.0, absent_key i j es a.1 h)

  pub desired-spec_of :
      (i : Text) (existing ds : List (Text × PackageVariant Rest))
      (stored after : List (PackageVariant Rest))
      → AreReady existing stored ds
      → AreDistinct ds
      → ensure_desired set_name k existing ds stored ≡ some after
      → spec_of set_name i after ≡ spec_or (lookup i ds) (spec_of set_name i stored)
  unfolding ensure_desired lookup
  desired-spec_of i existing [] stored after a d h =
      ap (spec_of set_name i) (sym (some-injective stored after h))
  desired-spec_of i existing (e ∷ ds) stored after a d h =
      let (t, f, g) =
        next-inverse (ensure_one set_name k e.1 (lookup e.0 existing) stored)
          (λ s. ensure_desired set_name k existing ds s) after h in
      let now = one-spec_of i e existing (lookup e.0 existing) stored t refl a.0 f in
      let later =
        desired-spec_of i existing ds t after (one-AreReady e ds existing stored t a.0 f d.0 a.1)
          d.1 g in
      elim (Bool-cases (eqb e.0 i)) [
        | inl y ↦ simp y (
            later
            ∙ ap (λ o. spec_or o (spec_of set_name i t)) (absent_key i e.0 ds d.0 y)
            ∙ simp y at now)
        | inr y ↦ simp y (later ∙ ap (spec_or (lookup i ds)) (simp y at now))
      ]
