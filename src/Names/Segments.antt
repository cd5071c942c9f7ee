-- ===== src/Names/Segments.antt =====
-- Paths whose elements are free of dots and slashes: Split undoes Join, and Clean changes nothing.
use mathlib.Core.List.{append-nil, append_assoc, reverse-append, reverse-reverse}
use porch.Common.{
  ℕ, Bool, false, ◌≡◌, refl, ap, sym, ◌∙◌, arith, Text, List, [], ◌∷◌, ◌++◌, ◌==◌, eqb, is_empty,
  codes, has_byte, replace_byte, All, reverse, any-append, All-snoc,
}
use porch.Names.Paths.{
  slash, dot, split_on, join_with, clean_element, clean_elements, finish, is_rooted, clean,
  file_join, trim_left, trim,
}

-- A text that is one element of a path and one part of an object's name.
pub record IsSegment (t : Text) : Type 0 where
  pub filled : is_empty t ≡ false
  pub no_dot : has_byte dot t ≡ false
  pub no_slash : has_byte slash t ≡ false

abbrev pub FreeOf : ℕ → Text → Type 0
FreeOf c t = has_byte c t ≡ false

pub split_on-part : (c : ℕ) (p s : Text) → FreeOf c p → split_on c (p ++ (c ∷ s)) ≡ p ∷ split_on c s
unfolding split_on
split_on-part c [] s h = ground arith
split_on-part c (x ∷ p) s h = rw (split_on-part c p s (ground arith)) (ground arith)

pub split_on_one : (c : ℕ) (p : Text) → FreeOf c p → split_on c p ≡ p ∷ []
unfolding split_on
split_on_one c [] h = refl
split_on_one c (x ∷ p) h = rw (split_on_one c p (ground arith)) (ground arith)

pub split_on-join_with :
    (c : ℕ) (p : Text) (ps : List Text)
    → All (FreeOf c) (p ∷ ps)
    → split_on c (join_with c (p ∷ ps)) ≡ p ∷ ps
unfolding join_with
split_on-join_with c p [] h = split_on_one c p h.0
split_on-join_with c p (q ∷ ps) h =
    split_on-part c p (join_with c (q ∷ ps)) h.0 ∙ ap (λ l. p ∷ l) (split_on-join_with c q ps h.1)

replace_byte-part :
    (a b : ℕ) (p s : Text)
    → FreeOf a p
    → replace_byte a b (p ++ (a ∷ s)) ≡ p ++ (b ∷ replace_byte a b s)
unfolding replace_byte
replace_byte-part a b [] s h = ground arith
replace_byte-part a b (x ∷ p) s h = ground (arith, replace_byte-part a b p s)

replace_byte_free : (a b : ℕ) (p : Text) → FreeOf a p → replace_byte a b p ≡ p
unfolding replace_byte
replace_byte_free a b [] h = refl
replace_byte_free a b (x ∷ p) h = ground (arith, replace_byte_free a b p)

pub replace_byte-join_with :
    (a b : ℕ) (ps : List Text)
    → All (FreeOf a) ps
    → replace_byte a b (join_with a ps) ≡ join_with b ps
unfolding join_with replace_byte
replace_byte-join_with a b [] h = refl
replace_byte-join_with a b (p ∷ []) h = replace_byte_free a b p h.0
replace_byte-join_with a b (p ∷ q ∷ ps) h =
    replace_byte-part a b p (join_with a (q ∷ ps)) h.0
    ∙ ap (λ t. p ++ (b ∷ t)) (replace_byte-join_with a b (q ∷ ps) h.1)

not_dots :
    (t : Text) → has_byte dot t ≡ false → (eqb t (codes ".") ≡ false) × (eqb t (codes "..") ≡ false)
unfolding eqb
not_dots [] h = (refl, refl)
not_dots (x ∷ t) h = ground arith

clean_element_segment :
    (r : Bool) (t : Text) (out : List Text) → IsSegment t → clean_element r t out ≡ t ∷ out
unfolding clean_element
clean_element_segment r t out h = let d = not_dots t h.no_dot in rw (h.filled, d.0, d.1) refl

clean_elements_segments :
    (r : Bool) (ts out : List Text) → All IsSegment ts → clean_elements r ts out ≡ reverse ts ++ out
unfolding clean_elements
clean_elements_segments r [] out h = refl
clean_elements_segments r (t ∷ ts) out h = rw (clean_element_segment r t out h.0) (
    clean_elements_segments r ts (t ∷ out) h.1
    ∙ sym
        (ap (λ l. l ++ out) (reverse-append (t ∷ []) ts) ∙ append_assoc (reverse ts) (t ∷ []) out))

abbrev pub starts_with_byte : ℕ → Text → Bool
starts_with_byte c [] = false
starts_with_byte c (x ∷ s) = x == c

abbrev pub AreSegments : List Text → Type 0
AreSegments = All IsSegment

pub All-no_dot : (ts : List Text) → AreSegments ts → All (FreeOf dot) ts
All-no_dot [] h = tt
All-no_dot (t ∷ ts) h = (h.0.no_dot, All-no_dot ts h.1)

pub All-no_slash : (ts : List Text) → AreSegments ts → All (FreeOf slash) ts
All-no_slash [] h = tt
All-no_slash (t ∷ ts) h = (h.0.no_slash, All-no_slash ts h.1)

-- A joined path begins with the first byte of its first element.
pub join_with-starts :
    (c d : ℕ) (t : Text) (ts : List Text)
    → is_empty t ≡ false
    → FreeOf d t
    → (starts_with_byte d (join_with c (t ∷ ts)) ≡ false)
      × (is_empty (join_with c (t ∷ ts)) ≡ false)
unfolding join_with
join_with-starts c d [] ts e f = cc
join_with-starts c d (x ∷ t) [] e f = ground arith
join_with-starts c d (x ∷ t) (u ∷ ts) e f = ground arith

clean_lem :
    (s : Text)
    → clean s
      ≡ finish
          (is_rooted s)
          (join_with slash (reverse (clean_elements (is_rooted s) (split_on slash s) [])))
unfolding clean
clean_lem s = refl

is_rooted_lem : (s : Text) → is_rooted s ≡ starts_with_byte slash s
is_rooted_lem [] = refl
is_rooted_lem (x ∷ s) = refl

finish_filled : (s : Text) → is_empty s ≡ false → finish false s ≡ s
finish_filled [] h = cc
finish_filled (x ∷ s) h = refl

elements_segments :
    (t : Text) (ts : List Text)
    → AreSegments (t ∷ ts)
    → reverse (clean_elements false (split_on slash (join_with slash (t ∷ ts))) []) ≡ t ∷ ts
elements_segments t ts h = rw (split_on-join_with slash t ts (All-no_slash (t ∷ ts) h)) (
    ap reverse (clean_elements_segments false (t ∷ ts) [] h ∙ append-nil (reverse (t ∷ ts)))
    ∙ reverse-reverse (t ∷ ts))

pub clean_segments :
    (t : Text) (ts : List Text)
    → AreSegments (t ∷ ts)
    → clean (join_with slash (t ∷ ts)) ≡ join_with slash (t ∷ ts)
clean_segments t ts h =
    let s = join_with slash (t ∷ ts) in
    let starts = join_with-starts slash slash t ts h.0.filled h.0.no_slash in
    clean_lem s
    ∙ ap (λ b. finish b (join_with slash (reverse (clean_elements b (split_on slash s) []))))
        (is_rooted_lem s ∙ starts.0)
    ∙ ap (λ es. finish false (join_with slash es)) (elements_segments t ts h)
    ∙ finish_filled s starts.1

pub join_with-snoc :
    (c : ℕ) (t : Text) (ts : List Text) (p : Text)
    → join_with c ((t ∷ ts) ++ p ∷ []) ≡ join_with c (t ∷ ts) ++ (c ∷ p)
unfolding join_with
join_with-snoc c t [] p = refl
join_with-snoc c t (u ∷ ts) p =
    ap (λ l. t ++ (c ∷ l)) (join_with-snoc c u ts p)
    ∙ sym (append_assoc t (c ∷ join_with c (u ∷ ts)) (c ∷ p))

file_join-filled : (a b : Text) → is_empty a ≡ false → file_join a b ≡ clean (a ++ (slash ∷ b))
unfolding file_join
file_join-filled [] b h = cc
file_join-filled (x ∷ a) b h = refl

-- filepath.Join of a path and a package name appends the name to the elements of the path.
pub file_join_segments :
    (ts : List Text) (p : Text)
    → AreSegments ts
    → IsSegment p
    → file_join (join_with slash ts) p ≡ join_with slash (ts ++ p ∷ [])
unfolding join_with
file_join_segments [] p h q = join_empty p q
  where
    join_empty : (r : Text) → IsSegment r → file_join [] r ≡ r
    join_empty [] v = cc v.filled
    join_empty (x ∷ r) v = unfold file_join in clean_segments (x ∷ r) [] (v, tt)
file_join_segments (t ∷ ts) p h q =
    file_join-filled (join_with slash (t ∷ ts)) p
      ((join_with-starts slash slash t ts h.0.filled h.0.no_slash).1)
    ∙ ap clean (sym (join_with-snoc slash t ts p))
    ∙ clean_segments t (ts ++ p ∷ []) (All-snoc IsSegment (t ∷ ts) p h q)
    ∙ refl

trim_left_same : (c : ℕ) (s : Text) → starts_with_byte c s ≡ false → trim_left c s ≡ s
unfolding trim_left
trim_left_same c [] h = refl
trim_left_same c (x ∷ s) h = rw h refl

has_byte-reverse : (c : ℕ) (s : Text) → has_byte c (reverse s) ≡ has_byte c s
has_byte-reverse c [] = refl
has_byte-reverse c (x ∷ s) =
    ap (has_byte c) (reverse-append (x ∷ []) s)
    ∙ any-append (λ y. y == c) (reverse s) (x ∷ [])
    ∙ ground (arith, has_byte-reverse c s)

starts-append :
    (c : ℕ) (a b : Text) → is_empty a ≡ false → FreeOf c a → starts_with_byte c (a ++ b) ≡ false
starts-append c [] b h f = cc
starts-append c (x ∷ a) b h f = ground arith

is_empty-reverse : (s : Text) → is_empty s ≡ false → is_empty (reverse s) ≡ false
is_empty-reverse [] h = h
is_empty-reverse (x ∷ s) h = rw (reverse-append (x ∷ []) s) (filled_snoc (reverse s))
  where
    filled_snoc : (t : Text) → is_empty (t ++ x ∷ []) ≡ false
    filled_snoc [] = refl
    filled_snoc (y ∷ t) = refl

-- strings.Trim changes nothing where the cutset's byte is neither at the start nor in the last part.
pub trim_same :
    (c : ℕ) (a p : Text)
    → starts_with_byte c (a ++ p) ≡ false
    → is_empty p ≡ false
    → FreeOf c p
    → trim c (a ++ p) ≡ a ++ p
unfolding trim
trim_same c a p h f e = rw (trim_left_same c (a ++ p) h) (
    ap (λ s. reverse (trim_left c s)) (reverse-append a p)
    ∙ ap reverse (
        trim_left_same c (reverse p ++ reverse a) (
          starts-append c (reverse p) (reverse a) (is_empty-reverse p f)
            (has_byte-reverse c p ∙ e)))
    ∙ ap reverse (sym (reverse-append a p))
    ∙ reverse-reverse (a ++ p))
