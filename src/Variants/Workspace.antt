-- ===== src/Variants/Workspace.antt =====
-- newWorkspaceName of packagevariant_controller.go. strconv.Atoi is standard library, written out for
-- what the code uses of it: the error is ignored, and a negative number counts like 0.
use mathlib.Core.List.{append-nil}
use porch.Common.{
  ℕ, ◌+◌, ◌≤◌, ◌<◌, Bool, true, false, not, ◌||◌, ◌==◌, ◌≡◌, ◌≢◌, refl, sym, ap, subst, ◌∙◌, arith,
  ltb, leb, Text, eqb, eqb_iff, is_empty, codes, List, [], ◌∷◌, ◌++◌, Memᴰ, Option, none, some,
  if◌then◌else◌, all,
}
use porch.DataSize.{is_digit, max_int64, digits_value, decimal}
use porch.DataSize.Decimal.{decimal-Writes}
use porch.Variants.{Revision}

-- strings.HasPrefix and strings.TrimPrefix: what follows the prefix, `none` without it
unfoldable pub after_prefix : Text → Text → Option Text
after_prefix [] s = some s
after_prefix (x ∷ p) [] = none
after_prefix (x ∷ p) (y ∷ s) = if x == y then after_prefix p s else none

abbrev saturated : ℕ → ℕ
saturated n = if leb n max_int64 then n else max_int64

abbrev unsigned : Text → ℕ
unsigned s = if is_empty s || not (all is_digit s) then 0 else saturated (digits_value 0 s)

-- strconv.Atoi
unfoldable pub atoi : Text → ℕ
atoi [] = 0
atoi (c ∷ s) = if c == b'+' then unsigned s else if c == b'-' then 0 else unsigned (c ∷ s)

abbrev pub prefix : Text
prefix = codes "packagevariant-"

abbrev pub number_in : Option Text → ℕ
number_in none = 0
number_in (some s) = atoi s

abbrev greater : ℕ → ℕ → ℕ
greater n m = if ltb n m then m else n

-- The loop: the highest number in use.
unfoldable pub workspace_number : Text → Text → ℕ → List Revision → ℕ
workspace_number package_name repo n [] = n
workspace_number package_name repo n (pr ∷ prs) =
    if not (eqb pr.package_name package_name) || not (eqb pr.repository_name repo)
    then workspace_number package_name repo n prs
    else workspace_number package_name repo
        (greater n (number_in (after_prefix prefix pr.workspace_name))) prs

-- wsNum++ and the name; the greatest int wraps around to the least
unfoldable pub named : ℕ → Text
named n = prefix ++ (if n == max_int64 then codes "-9223372036854775808" else decimal (n + 1) [])

-- newWorkspaceName
unfoldable pub new_workspace_name : List Revision → Text → Text → Text
new_workspace_name prs package_name repo = named (workspace_number package_name repo 0 prs)

number-greater :
    (package_name repo : Text) (n : ℕ) (prs : List Revision)
    → n ≤ workspace_number package_name repo n prs
unfolding workspace_number
number-greater package_name repo n [] = omega arith
number-greater package_name repo n (pr ∷ prs) = ground (
  arith,
  number-greater package_name repo n prs,
  number-greater package_name repo (greater n (number_in (after_prefix prefix pr.workspace_name)))
      prs,
)

head-covers :
    (package_name repo : Text) (n : ℕ) (x : Revision) (prs : List Revision)
    → x.package_name ≡ package_name
    → x.repository_name ≡ repo
    → number_in (after_prefix prefix x.workspace_name)
      ≤ workspace_number package_name repo n (x ∷ prs)
unfolding workspace_number
head-covers package_name repo n x prs p q =
    let m = number_in (after_prefix prefix x.workspace_name) in
    simp ((eqb_iff x.package_name package_name).1 p, (eqb_iff x.repository_name repo).1 q)
      (ground (arith, number-greater package_name repo (greater n m) prs))

number-covers :
    (package_name repo : Text) (n : ℕ) {pr : Revision} (prs : List Revision)
    → Memᴰ pr prs
    → pr.package_name ≡ package_name
    → pr.repository_name ≡ repo
    → number_in (after_prefix prefix pr.workspace_name) ≤ workspace_number package_name repo n prs
unfolding workspace_number
number-covers package_name repo n [] m p q = elim m [ ]
number-covers package_name repo n {pr} (x ∷ prs) (Memᴰ.head e) p q =
    subst
      (λ y.
        number_in (after_prefix prefix y.workspace_name)
        ≤ workspace_number package_name repo n (x ∷ prs))
      (sym e)
      (head-covers package_name repo n x prs (ap (λ (y : Revision). y.package_name) (sym e) ∙ p)
        (ap (λ (y : Revision). y.repository_name) (sym e) ∙ q))
number-covers package_name repo n {pr} (x ∷ prs) (Memᴰ.tail m) p q = ground (
  arith,
  number-covers package_name repo n prs m p q,
  number-covers package_name repo (greater n (number_in (after_prefix prefix x.workspace_name))) prs
      m p q,
)

after_prefix-append : (p s : Text) → after_prefix p (p ++ s) ≡ some s
unfolding after_prefix
after_prefix-append [] s = refl
after_prefix-append (x ∷ p) s = ground (arith, after_prefix-append p s)

atoi-digits :
    (digits : Text)
    → all is_digit digits ≡ true
    → is_empty digits ≡ false
    → digits_value 0 digits ≤ max_int64
    → atoi digits ≡ digits_value 0 digits
unfolding atoi
atoi-digits [] a e b = cc
atoi-digits (c ∷ s) a e b = ground arith

atoi-decimal : (n : ℕ) → n ≤ max_int64 → atoi (decimal n []) ≡ n
atoi-decimal n h =
    let w = decimal-Writes n [] in
    ap atoi (w.is_written ∙ append-nil w.digits)
    ∙ atoi-digits w.digits w.all_digits w.not_empty (rw w.has_value h)
    ∙ w.has_value

-- The new workspace name is that of no revision of the package, unless the number of one of them is
-- the greatest int.
pub new_workspace_name-fresh :
    (prs : List Revision) (package_name repo : Text)
    → workspace_number package_name repo 0 prs < max_int64
    → (pr : Revision) → Memᴰ pr prs
    → pr.package_name ≡ package_name
    → pr.repository_name ≡ repo
    → pr.workspace_name ≢ new_workspace_name prs package_name repo
unfolding new_workspace_name named
new_workspace_name-fresh prs package_name repo small pr m p q e =
    omega (arith, number-covers package_name repo 0 prs m p q, number_read, small)
  where
    n : ℕ
    n = workspace_number package_name repo 0 prs

    not_greatest : (n == max_int64) ≡ false
    not_greatest = ground (arith, small)

    number_read : number_in (after_prefix prefix pr.workspace_name) ≡ n + 1
    number_read =
        ap (λ w. number_in (after_prefix prefix w)) e
        ∙ ap
            (λ (b : Bool). number_in (
              after_prefix prefix
                (prefix ++ (if b then codes "-9223372036854775808" else decimal (n + 1) []))))
            not_greatest
        ∙ ap number_in (after_prefix-append prefix (decimal (n + 1) []))
        ∙ atoi-decimal (n + 1) (omega (arith, small))
