-- ===== src/Webhook/Checks.antt =====
-- How the checks of the v1alpha2 webhook are combined: what follows from a whole that finds no error.
use porch.Common.{Bool, false, ◌≡◌, refl, arith, List, [], ◌∷◌, Memᴰ, Option, none, some}
use porch.PackageRevision.{PackageRevision}
use porch.Webhook.Validator.{◌then_check◌, Verdict, AdmissionError, refuse_any, on_list}

pub refuse_any-none :
    (bad : PackageRevision → Bool) (e : AdmissionError) {p : PackageRevision}
    (ps : List PackageRevision)
    → refuse_any bad e ps ≡ none
    → Memᴰ p ps
    → bad p ≡ false
unfolding refuse_any
refuse_any-none bad e [] h m = elim m [ ]
refuse_any-none bad e (q ∷ ps) h (Memᴰ.head i) = rw i (ground arith)
refuse_any-none bad e (q ∷ ps) h (Memᴰ.tail m) = refuse_any-none bad e ps (ground arith) m

pub refuse_any_of :
    (bad : PackageRevision → Bool) (e : AdmissionError) (ps : List PackageRevision)
    → ((p : PackageRevision) → Memᴰ p ps → bad p ≡ false)
    → refuse_any bad e ps ≡ none
unfolding refuse_any
refuse_any_of bad e [] h = refl
refuse_any_of bad e (q ∷ ps) h =
    rw (h q (Memᴰ.head refl)) (refuse_any_of bad e ps (λ p m. h p (Memᴰ.tail m)))

pub on_list-none :
    (f : List PackageRevision → Verdict) (o : Option (List PackageRevision))
    → on_list f o ≡ none
    → (ps : List PackageRevision) × (o ≡ some ps) × (f ps ≡ none)
on_list-none f none h = cc
on_list-none f (some ps) h = (ps, refl, h)

pub then_check-none : (a b : Verdict) → (a then_check b) ≡ none → (a ≡ none) × (b ≡ none)
then_check-none none b h = (refl, h)
then_check-none (some e) b h = cc
