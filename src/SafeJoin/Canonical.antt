-- ===== src/SafeJoin/Canonical.antt =====
-- FilepathSafeJoin on the directory "." accepts exactly the canonical paths (pkg/util/safejoin.go).
use mathlib.Core.List.{append-nil, append_assoc, reverse-append, reverse-reverse}
use porch.Common.{
  true, false, ◌≡◌, ◌⊎◌, refl, sym, ap, ◌∙◌, subst, arith, Text, List, [], ◌∷◌, ◌++◌, ◌==◌, eqb,
  Bool, eqb_refl, eqb→eq, codes, has_prefix, has_prefix-find, has_prefix-append, All, reverse, all,
  none, some, Bool-cases, inl, inr, if◌then◌else◌,
}
use porch.Names.Paths.{
  slash, split_on, join_with, clean_elements, clean, file_join, finish, is_rooted,
}
use porch.Names.Segments.{FreeOf, split_on-join_with, split_on-part, split_on_one}
use porch.SafeJoin.{rel, is_refused, checked, filepath_safe_join, validate_resource_paths}
use porch.SafeJoin.Cleaned.{
  is_plain, IsElement, IsShaped, join_with-split_on, clean_elements-IsShaped, clean_elements_plain,
  all-reverse,
}
use porch.SafeJoin.Relative.{
  cleaned, clean_relative, cleaned-AreElements, All-free, joined-relative, rel_from, rel-relative,
  finish-relative, clean-relative, file_join-here,
}

-- A path of plain elements between single slashes
unfoldable pub is_canonical : Text → Bool
is_canonical k = all is_plain (split_on slash k)

-- A canonical path is its own elements.
canonical_elements : (k : Text) → is_canonical k ≡ true → cleaned k ≡ split_on slash k
unfolding is_canonical
canonical_elements k h =
    ap reverse
      (clean_elements_plain (split_on slash k) [] h ∙ append-nil (reverse (split_on slash k)))
    ∙ reverse-reverse (split_on slash k)

split_filled : (k : Text) → (e : Text) × (es : List Text) × (split_on slash k ≡ e ∷ es)
unfolding split_on
split_filled [] = ([], [], refl)
split_filled (x ∷ s) = elim (Bool-cases (x == slash)) [
  | inl h ↦ simp h ([], split_on slash s, refl)
  | inr h ↦ let (e, es, q) = split_filled s in simp (h, q) (x ∷ e, es, refl)
]

canonical-clean :
    (k : Text) → is_canonical k ≡ true → finish false (join_with slash (cleaned k)) ≡ k
canonical-clean k h =
    let (e, es, q) = split_filled k in
    let same : cleaned k ≡ e ∷ es = canonical_elements k h ∙ q in
    ap (λ l. finish false (join_with slash l)) same
    ∙ (joined-relative e es (subst (All IsElement) same (cleaned-AreElements k))).1
    ∙ ap (join_with slash) (sym q)
    ∙ join_with-split_on k

canonical-relative : (k : Text) → is_canonical k ≡ true → is_rooted k ≡ false
canonical-relative k h =
    let (e, es, q) = split_filled k in
    let same : cleaned k ≡ e ∷ es = canonical_elements k h ∙ q in
    ap is_rooted (sym (join_with-split_on k) ∙ ap (join_with slash) q)
    ∙ (joined-relative e es (subst (All IsElement) same (cleaned-AreElements k))).0

canonical-rel_from : (k : Text) → is_canonical k ≡ true → rel_from (cleaned k) ≡ some k
canonical-rel_from k h =
    let (e, es, q) = split_filled k in
    ap rel_from (canonical_elements k h ∙ q)
    ∙ ap (λ l. some (join_with slash l)) (sym q)
    ∙ ap some (join_with-split_on k)

-- A path that begins with an element and a slash
prefix-split :
    (a k : Text)
    → FreeOf slash a
    → has_prefix (a ++ slash ∷ []) k ≡ true
    → (es : List Text) × (split_on slash k ≡ a ∷ es)
prefix-split a k f h =
    let (r, e) = has_prefix-find (a ++ slash ∷ []) k h in
    (
      split_on slash r,
      ap (split_on slash) (e ∙ append_assoc a (slash ∷ []) r) ∙ split_on-part slash a r f,
    )

-- What is not canonical
first-canonical :
    (a k : Text) (es : List Text)
    → is_plain a ≡ false
    → split_on slash k ≡ a ∷ es
    → is_canonical k ≡ false
unfolding is_canonical
first-canonical a k es p e = rw e (ground arith)

equal-canonical :
    (a k : Text) → FreeOf slash a → is_plain a ≡ false → is_canonical k ≡ true → eqb k a ≡ false
equal-canonical a k f p h = elim (Bool-cases (eqb k a)) [
  | inr e ↦ e
  | inl e ↦
      cc (h, first-canonical a k [] p (ap (split_on slash) (eqb→eq k a e) ∙ split_on_one slash a f))
]

prefix-canonical :
    (a k : Text)
    → FreeOf slash a
    → is_plain a ≡ false
    → is_canonical k ≡ true
    → has_prefix (a ++ slash ∷ []) k ≡ false
prefix-canonical a k f p h = elim (Bool-cases (has_prefix (a ++ slash ∷ []) k)) [
  | inr e ↦ e
  | inl e ↦ cc (h, first-canonical a k (prefix-split a k f e).0 p (prefix-split a k f e).1)
]

dots : (is_plain (codes ".") ≡ false) × (is_plain (codes "..") ≡ false)
unfolding is_plain eqb
dots = (refl, refl)

canonical-accepted : (k : Text) → is_canonical k ≡ true → is_refused k k ≡ false
canonical-accepted k h = ground (
  arith,
  eqb_refl k,
  equal-canonical (codes ".") k refl dots.0 h,
  equal-canonical (codes "..") k refl dots.1 h,
  prefix-canonical (codes ".") k refl dots.0 h,
  prefix-canonical (codes "..") k refl dots.1 h,
)

plain-canonical :
    (t : Text) (ts : List Text)
    → All IsElement (t ∷ ts)
    → all is_plain (t ∷ ts) ≡ true
    → is_canonical (join_with slash (t ∷ ts)) ≡ true
unfolding is_canonical
plain-canonical t ts a p = rw (split_on-join_with slash t ts (All-free (t ∷ ts) a)) p

up-refused :
    (k t : Text) (ts : List Text) → t ≡ codes ".." → is_refused k (join_with slash (t ∷ ts)) ≡ true
unfolding join_with
up-refused k t [] u = let e = ap (λ s. eqb s (codes "..")) u ∙ eqb_refl (codes "..") in ground arith
up-refused k t (v ∷ ts) u =
    let e =
      ap (λ s. has_prefix (codes "../") (s ++ (slash ∷ join_with slash (v ∷ ts)))) u
      ∙ has_prefix-append (codes "../") (join_with slash (v ∷ ts)) in
    ground arith

shaped-refused :
    (k t : Text) (ts : List Text)
    → All IsElement (t ∷ ts)
    → is_canonical k ≡ false
    → (all is_plain (t ∷ ts) ≡ true) ⊎ (t ≡ codes "..")
    → is_refused k (join_with slash (t ∷ ts)) ≡ true
shaped-refused k t ts a n (inr u) = up-refused k t ts u
shaped-refused k t ts a n (inl p) = elim (Bool-cases (eqb (join_with slash (t ∷ ts)) k)) [
  | inl e ↦
      cc (n, ap is_canonical (eqb→eq (join_with slash (t ∷ ts)) k e), plain-canonical t ts a p)
  | inr e ↦ ground arith
]

abbrev IsLed : List Text → Type 0
IsLed [] = Unit
IsLed (t ∷ ts) = (all is_plain (t ∷ ts) ≡ true) ⊎ (t ≡ codes "..")

plain-IsLed : (ts : List Text) → all is_plain ts ≡ true → IsLed ts
plain-IsLed [] p = tt
plain-IsLed (t ∷ ts) p = inl p

reverse-IsLed : (out : List Text) → IsShaped out → IsLed (reverse out)
reverse-IsLed out (inl p) = plain-IsLed (reverse out) (all-reverse out ∙ p)
reverse-IsLed out (inr (front, e)) =
    subst IsLed (sym (ap reverse e ∙ reverse-append front (codes ".." ∷ []))) (inr refl)

led-checked :
    (k p : Text) (ts : List Text)
    → All IsElement ts
    → is_canonical k ≡ false
    → IsLed ts
    → checked k p (rel_from ts) ≡ none
led-checked k p [] a n l = unfold eqb in refl
led-checked k p (t ∷ ts) a n l = rw (shaped-refused k t ts a n l) refl

-- FilepathSafeJoin on "." gives a path back exactly if its elements are not empty, "." or "..", and
-- refuses any other.
pub safe_join-canonical :
    (k : Text) → filepath_safe_join (codes ".") k ≡ (if is_canonical k then some k else none)
unfolding filepath_safe_join
safe_join-canonical k = elim (Bool-cases (is_canonical k)) [
  | inl h ↦
      let relative = canonical-relative k h in
      let same : clean (file_join (codes ".") k) ≡ k =
        ap clean (file_join-here k ∙ canonical-clean k h)
        ∙ clean_relative k relative
        ∙ canonical-clean k h in
      simp h (
        ap (λ p. checked k p (rel (codes ".") p)) same
        ∙ ap (checked k k) (rel-relative k relative ∙ canonical-rel_from k h)
        ∙ ap (λ b. if b then none else some k) (canonical-accepted k h))
  | inr n ↦
      let p = clean (file_join (codes ".") k) in
      let relative : is_rooted p ≡ false =
        clean-relative (file_join (codes ".") k)
          (ap is_rooted (file_join-here k) ∙ finish-relative (cleaned k) (cleaned-AreElements k)) in
      simp n (
        ap (checked k p) (rel-relative p relative)
        ∙ led-checked k p (cleaned p) (cleaned-AreElements p) n (
            reverse-IsLed (clean_elements false (split_on slash p) [])
              (clean_elements-IsShaped (split_on slash p) [] (inl refl))))
]

-- ValidateResourcePaths reports no error exactly if each key is a path of elements that are not empty,
-- "." or "..".
pub validate_resource_paths-canonical :
    (keys : List Text) → validate_resource_paths keys ≡ all is_canonical keys
unfolding validate_resource_paths
validate_resource_paths-canonical [] = refl
validate_resource_paths-canonical (k ∷ ks) =
    rw (safe_join-canonical k) (ground (arith, validate_resource_paths-canonical ks))
