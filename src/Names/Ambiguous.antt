-- ===== src/Names/Ambiguous.antt =====
-- Names whose workspace GetPRWorkspaceName (api/util/util.go) takes for the end of a version.

use porch.Common.{
  ℕ, Bool, true, false, ◌≡◌, refl, ap, ◌∙◌, arith, Text, [], ◌∷◌, ◌++◌, ◌==◌, if◌then◌else◌,
  is_empty, has_byte, all, all-append, any-append,
}
use porch.Names.Paths.{slash, dot, join_with}
use porch.Names.Split.{
  after_last, at_dot_v, semver_found, is_semver_suffix, is_digit, ends_in_digit, is_digit_or_dot,
  get_pr_workspace_name,
}
use porch.Names.Objects.{compose_pkg_rev_obj_name}
use porch.Names.Segments.{IsSegment, FreeOf}
use porch.Names.Compose.{compose_pkg_rev_lem}

abbrev pub are_digits : Text → Bool
are_digits = all is_digit

digits-or_dot : (d : Text) → are_digits d ≡ true → all is_digit_or_dot d ≡ true
digits-or_dot [] h = refl
digits-or_dot (x ∷ d) h = ground (arith, digits-or_dot d)

digits-free : (c : ℕ) (d : Text) → is_digit c ≡ false → are_digits d ≡ true → FreeOf c d
digits-free c [] n h = refl
digits-free c (x ∷ d) n h = ground (arith, digits-free c d n)

ends-append : (a b : Text) → is_empty b ≡ false → ends_in_digit (a ++ b) ≡ ends_in_digit b
ends-append [] b h = refl
ends-append (x ∷ []) [] h = cc
ends-append (x ∷ []) (y ∷ b) h = refl
ends-append (x ∷ y ∷ a) b h = ends-append (y ∷ a) b h

digits-end : (w : Text) → are_digits w ≡ true → is_empty w ≡ false → ends_in_digit w ≡ true
digits-end [] h e = cc
digits-end (x ∷ []) h e = ground arith
digits-end (x ∷ y ∷ w) h e = digits-end (y ∷ w) (ground arith) refl

version_suffix :
    (d w : Text)
    → are_digits d ≡ true
    → are_digits w ≡ true
    → is_empty w ≡ false
    → is_semver_suffix (dot ∷ b'v' ∷ (d ++ (dot ∷ w))) ≡ true
unfolding is_semver_suffix
version_suffix d w hd hw e =
    rw (all-append is_digit_or_dot d (dot ∷ w), digits-or_dot d hd, digits-or_dot w hw)
      (ends-append d (dot ∷ w) refl ∙ ends-append (dot ∷ []) w e ∙ digits-end w hw e)

semver_found-append : (base s : Text) → is_semver_suffix s ≡ true → semver_found (base ++ s) ≡ true
unfolding semver_found
semver_found-append [] [] h = h
semver_found-append [] (x ∷ s) h = rw h refl
semver_found-append (x ∷ base) s h = ground (arith, semver_found-append base s h)

after_last-v-free : (f s : Text) → FreeOf b'v' s → after_last at_dot_v f s ≡ f
unfolding after_last
after_last-v-free f [] h = refl
after_last-v-free f (x ∷ []) h = refl
after_last-v-free f (x ∷ y ∷ s) h = ground (arith, after_last-v-free f (y ∷ s))

after_last-v :
    (f base s : Text) → FreeOf b'v' s → after_last at_dot_v f (base ++ (dot ∷ b'v' ∷ s)) ≡ b'v' ∷ s
unfolding after_last
after_last-v f [] [] h = refl
after_last-v f [] (x ∷ s) h = after_last-v-free (b'v' ∷ x ∷ s) (x ∷ s) h
after_last-v f (x ∷ base) s h =
    after_last-v (if at_dot_v (x ∷ (base ++ (dot ∷ b'v' ∷ s))) then base ++ (dot ∷ b'v' ∷ s) else f)
      base s h

has_dot : (base ws : Text) → has_byte dot (base ++ (dot ∷ ws)) ≡ true
has_dot [] ws = refl
has_dot (x ∷ base) ws = ground (arith, has_dot base ws)

version_read :
    (base d w : Text)
    → are_digits d ≡ true
    → are_digits w ≡ true
    → is_empty w ≡ false
    → get_pr_workspace_name (base ++ (dot ∷ b'v' ∷ (d ++ (dot ∷ w)))) ≡ b'v' ∷ (d ++ (dot ∷ w))
unfolding get_pr_workspace_name
version_read base d w hd hw e =
    rw
      (
        has_dot base (b'v' ∷ (d ++ (dot ∷ w))),
        semver_found-append base (dot ∷ b'v' ∷ (d ++ (dot ∷ w))) (version_suffix d w hd hw e),
      )
      (after_last-v (base ++ (dot ∷ b'v' ∷ (d ++ (dot ∷ w)))) base (d ++ (dot ∷ w)) (
        rw (any-append (λ x. x == b'v') d (dot ∷ w), digits-free b'v' d refl hd)
          (digits-free b'v' w refl hw)))

-- For a package `v<digits>` at the top of its repository and a workspace of digits, the workspace
-- read back from the composed object name is not the workspace: it is `v<digits>.<digits>`.
pub version_package-misread :
    (repo d w : Text)
    → IsSegment repo
    → are_digits d ≡ true
    → are_digits w ≡ true
    → is_empty w ≡ false
    → get_pr_workspace_name (compose_pkg_rev_obj_name repo [] (b'v' ∷ d) w)
      ≡ b'v' ∷ (d ++ (dot ∷ w))
unfolding join_with
version_package-misread repo d w hr hd hw e =
    ap get_pr_workspace_name (
      compose_pkg_rev_lem repo [] (b'v' ∷ d) w hr tt
        (record {
          filled = refl;
          no_dot = digits-free dot d refl hd;
          no_slash = digits-free slash d refl hd;
        })
        e)
    ∙ version_read repo d w hd hw e
