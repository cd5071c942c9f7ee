-- ===== src/Database/Keys.antt =====
-- Keys as map keys, and membership in the maps of the synchronization
-- (pkg/cache/dbcache/dbreposync.go).
use porch.Common.{
  is_some, Bool, true, false, ◌≡◌, refl, sym, ap, ◌∙◌, arith, List, [], ◌∷◌, some, some-injective,
  eqb_iff, eqb_refl, Bool-cases, inl, inr, keep_if, All, Memᴰ,
}
use porch.Common.Int.{ℤ_eq_iff}
use porch.Key.{PackageRevisionKey, PackageKey, RepositoryKey, pkg_rev_k8s_name}
use porch.Database.{
  Row, Table, External, same_row, read_row, has_external, revision_key_eq, package_key_eq,
  repository_key_eq,
}

pub repository_key_eq→eq : (a b : RepositoryKey) → repository_key_eq a b ≡ true → a ≡ b
unfolding repository_key_eq
repository_key_eq→eq a b h = ground (
  arith,
  eqb_iff a.namespace b.namespace,
  eqb_iff a.name b.name,
  eqb_iff a.path b.path,
  eqb_iff a.placeholder_ws_name b.placeholder_ws_name,
)

pub package_key_eq→eq : (a b : PackageKey) → package_key_eq a b ≡ true → a ≡ b
unfolding package_key_eq
package_key_eq→eq a b h = ground (
  arith,
  repository_key_eq→eq a.repo_key b.repo_key,
  eqb_iff a.path b.path,
  eqb_iff a.package_name b.package_name,
)

pub revision_key_eq→eq : (a b : PackageRevisionKey) → revision_key_eq a b ≡ true → a ≡ b
unfolding revision_key_eq
revision_key_eq→eq a b h = ground (
  arith,
  package_key_eq→eq a.pkg_key b.pkg_key,
  ℤ_eq_iff a.revision b.revision,
  eqb_iff a.workspace_name b.workspace_name,
)

pub same_row_refl : (k : PackageRevisionKey) → same_row k k ≡ true
unfolding same_row
same_row_refl k =
    ground (arith, eqb_refl k.pkg_key.repo_key.namespace, eqb_refl (pkg_rev_k8s_name k))

-- No revision of git stands under the row of the key.
abbrev pub IsAbsent : PackageRevisionKey → List External → Type 0
IsAbsent k = All (λ e. same_row e.key k ≡ false)

pub absent-has_external :
    (k : PackageRevisionKey) (es : List External) → IsAbsent k es → has_external k es ≡ false
unfolding has_external
absent-has_external k [] a = refl
absent-has_external k (e ∷ es) a = elim (Bool-cases (revision_key_eq k e.key)) [
  | inl h ↦ cc (a.0, ap (λ j. same_row j k) (revision_key_eq→eq k e.key h), same_row_refl k)
  | inr h ↦ simp h (absent-has_external k es a.1)
]

pub All-keep_if :
    (P : External → Type 0) (p : External → Bool) (es : List External)
    → All P es
    → All P (keep_if p es)
All-keep_if P p [] a = tt
All-keep_if P p (e ∷ es) a = elim (Bool-cases (p e)) [
  | inl h ↦ simp h (a.0, All-keep_if P p es a.1)
  | inr h ↦ simp h (All-keep_if P p es a.1)
]

pub keep_if-mem :
    {A : Type 0} (p : A → Bool) (r : A) (t : List A) → Memᴰ r t → p r ≡ true → Memᴰ r (keep_if p t)
keep_if-mem p r [] m h = elim m [ ]
keep_if-mem p r (x ∷ t) (Memᴰ.head e) h = simp (ap p (sym e) ∙ h) (Memᴰ.head e)
keep_if-mem p r (x ∷ t) (Memᴰ.tail m) h = elim (Bool-cases (p x)) [
  | inl b ↦ simp b (Memᴰ.tail (keep_if-mem p r t m h))
  | inr b ↦ simp b (keep_if-mem p r t m h)
]

pub read_row-mem : (k : PackageRevisionKey) (r : Row) (t : Table) → read_row k t ≡ some r → Memᴰ r t
unfolding read_row
read_row-mem k r [] h = cc
read_row-mem k r (x ∷ t) h = elim (Bool-cases (same_row k x.key)) [
  | inl e ↦ Memᴰ.head (sym (some-injective x r (simp e at h)))
  | inr e ↦ Memᴰ.tail (read_row-mem k r t (simp e at h))
]

kept_cons :
    {A : Type 0} (p : A → Bool) (r x : A) (t s : List A)
    → p x ≡ true
    → (Memᴰ r s → Memᴰ r t × (p r ≡ true))
    → Memᴰ r (x ∷ s)
    → Memᴰ r (x ∷ t) × (p r ≡ true)
kept_cons p r x t s b f (Memᴰ.head e) = (Memᴰ.head e, ap p e ∙ b)
kept_cons p r x t s b f (Memᴰ.tail m) = (Memᴰ.tail (f m).0, (f m).1)

pub kept-mem :
    {A : Type 0} (p : A → Bool) (r : A) (t : List A)
    → Memᴰ r (keep_if p t)
    → Memᴰ r t × (p r ≡ true)
kept-mem p r [] m = elim m [ ]
kept-mem p r (x ∷ t) m = elim (Bool-cases (p x)) [
  | inl b ↦ kept_cons p r x t (keep_if p t) b (kept-mem p r t) (simp b at m)
  | inr b ↦ (Memᴰ.tail (kept-mem p r t (simp b at m)).0, (kept-mem p r t (simp b at m)).1)
]

pub revision_key_eq_refl : (k : PackageRevisionKey) → revision_key_eq k k ≡ true
unfolding revision_key_eq package_key_eq repository_key_eq
revision_key_eq_refl k = ground (
  arith,
  eqb_refl k.pkg_key.repo_key.namespace,
  eqb_refl k.pkg_key.repo_key.name,
  eqb_refl k.pkg_key.repo_key.path,
  eqb_refl k.pkg_key.repo_key.placeholder_ws_name,
  eqb_refl k.pkg_key.path,
  eqb_refl k.pkg_key.package_name,
  ℤ_eq_iff k.revision k.revision,
  eqb_refl k.workspace_name,
)

pub read_row-IsSet :
    (k : PackageRevisionKey) (r : Row) (t : Table)
    → Memᴰ r t
    → same_row k r.key ≡ true
    → is_some (read_row k t) ≡ true
unfolding read_row
read_row-IsSet k r [] m h = elim m [ ]
read_row-IsSet k r (x ∷ t) (Memᴰ.head e) h = ground (arith, e, ap (λ (y : Row). same_row k y.key) e)
read_row-IsSet k r (x ∷ t) (Memᴰ.tail m) h = ground (arith, read_row-IsSet k r t m h)
