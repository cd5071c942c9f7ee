-- ===== src/Lifecycle/Readiness.antt =====
-- Readiness gates: PackageRevisionIsReady of api/porch/v1alpha1/util.go and v1alpha2/util.go.
use porch.Common.{
  Bool, true, false, ◌&&◌, ◌≡◌, ◌↔◌, ◌⊎◌, inl, inr, refl, arith, Text, eqb, eqb_iff, eqb_refl,
  codes, List, [], ◌∷◌, Memᴰ, Option, none, some, if◌then◌else◌, any, Bool-cases,
}

pub record Condition : Type 0 where
  pub condition_type : Text
  pub status : Text

-- `conds[c.Type] = c` for each condition in turn, then `conds[t]`: the last one of a type counts.
unfoldable pub indexed : Text → List Condition → Option Condition → Option Condition
indexed t [] found = found
indexed t (c ∷ cs) found = indexed t cs (if eqb c.condition_type t then some c else found)

-- The two tests of the second loop's body for one gate.
abbrev met : Option Condition → Bool
met none = false
met (some c) = eqb c.status (codes "True")

unfoldable pub package_revision_is_ready : List Text → List Condition → Bool
unfolding indexed
package_revision_is_ready [] cs = true
package_revision_is_ready (g ∷ gs) cs = met (indexed g cs none) && package_revision_is_ready gs cs

abbrev pub of_type : Text → Condition → Bool
of_type t c = eqb c.condition_type t

-- `c` is the last condition of the type `t`.
pub data LastOf (t : Text) (c : Condition) : List Condition → Type 0 where
  last :
      {cs : List Condition} → of_type t c ≡ true → any (of_type t) cs ≡ false → LastOf t c (c ∷ cs)
  later : {d : Condition} {cs : List Condition} → LastOf t c cs → LastOf t c (d ∷ cs)

indexed_absent :
    (t : Text) (cs : List Condition) (found : Option Condition)
    → any (of_type t) cs ≡ false
    → indexed t cs found ≡ found
unfolding indexed
indexed_absent t [] found h = refl
indexed_absent t (c ∷ cs) found h = ground (arith, indexed_absent t cs found)

indexed-LastOf :
    (t : Text) (c : Condition) (cs : List Condition) (found : Option Condition)
    → LastOf t c cs
    → indexed t cs found ≡ some c
unfolding indexed
indexed-LastOf t c _ found (last {cs} h none_after) = rw h (indexed_absent t cs (some c) none_after)
indexed-LastOf t c _ found (later {d} {cs} l) =
    indexed-LastOf t c cs (if of_type t d then some d else found) l

LastOf-indexed :
    (t : Text) (c : Condition) (cs : List Condition) (found : Option Condition)
    → indexed t cs found ≡ some c
    → LastOf t c cs ⊎ ((found ≡ some c) × (any (of_type t) cs ≡ false))
unfolding indexed
LastOf-indexed t c [] found h = inr (h, refl)
LastOf-indexed t c (d ∷ cs) found h =
    elim (LastOf-indexed t c cs (if of_type t d then some d else found) h) [
      | inl l ↦ inl (later l)
      | inr p ↦ elim (Bool-cases (of_type t d)) [
        | inl e ↦ inl (at_head (ground arith) e p.1)
        | inr e ↦ inr (ground arith, ground arith)
      ]
    ]
  where
    at_head : d ≡ c → of_type t d ≡ true → any (of_type t) cs ≡ false → LastOf t c (d ∷ cs)
    at_head e q n = rw e (last (rw e at q) n)

abbrev pub IsMet : List Condition → Text → Type 0
IsMet cs g = (c : Condition) × LastOf g c cs × (c.status ≡ codes "True")

met-find : (g : Text) (cs : List Condition) → met (indexed g cs none) ≡ true → IsMet cs g
met-find g cs h = go (indexed g cs none) refl h
  where
    go : (o : Option Condition) → indexed g cs none ≡ o → met o ≡ true → IsMet cs g
    go none e q = cc
    go (some c) e q = elim (LastOf-indexed g c cs none e) [
      | inl l ↦ (c, l, (eqb_iff c.status (codes "True")).0 q)
      | inr p ↦ cc p.0
    ]

met_of : (g : Text) (cs : List Condition) → IsMet cs g → met (indexed g cs none) ≡ true
met_of g cs (c, l, e) = rw (indexed-LastOf g c cs none l) (rw e (eqb_refl (codes "True")))

met_all :
    (gs : List Text) (cs : List Condition) {g : Text}
    → package_revision_is_ready gs cs ≡ true
    → Memᴰ g gs
    → met (indexed g cs none) ≡ true
unfolding package_revision_is_ready
met_all [] cs h m = elim m [ ]
met_all (x ∷ gs) cs h (Memᴰ.head e) = rw e (ground arith)
met_all (x ∷ gs) cs h (Memᴰ.tail m) = met_all gs cs (ground arith) m

ready_of :
    (gs : List Text) (cs : List Condition)
    → ((g : Text) → Memᴰ g gs → IsMet cs g)
    → package_revision_is_ready gs cs ≡ true
unfolding package_revision_is_ready
ready_of [] cs h = refl
ready_of (x ∷ gs) cs h =
    ground (arith, met_of x cs (h x (Memᴰ.head refl)), ready_of gs cs (λ g m. h g (Memᴰ.tail m)))

-- A package is ready exactly when, for every readiness gate, the last condition of the gate's type
-- exists and has the status True.
pub ready_iff :
    (gates : List Text) (cs : List Condition)
    → (package_revision_is_ready gates cs ≡ true) ↔ ((g : Text) → Memᴰ g gates → IsMet cs g)
ready_iff gates cs = (λ h g m. met-find g cs (met_all gates cs h m), ready_of gates cs)
