-- ===== src/Database/Rows.antt =====
-- Rows of the database cache under their names (pkg/cache/dbcache).
use porch.Common.{
  ℕ, true, false, ◌≡◌, refl, arith, [], ◌∷◌, Option, none, some, if◌then◌else◌, eqb_iff, Bool-cases,
  inl, inr,
}
use porch.Key.{PackageRevisionKey, pkg_rev_k8s_name}
use porch.Database.{
  Row, Table, same_row, read_row, delete_row, save_row, preserve_push_markers, preserved_markers,
}

-- Two keys stand for one row exactly if their names agree, so a row may be looked up by either.
pub same_row_swap : (a b k : PackageRevisionKey) → same_row a b ≡ true → same_row k a ≡ same_row k b
unfolding same_row
same_row_swap a b k h = ground (
  arith,
  eqb_iff a.pkg_key.repo_key.namespace b.pkg_key.repo_key.namespace,
  eqb_iff (pkg_rev_k8s_name a) (pkg_rev_k8s_name b),
)

pub same_row_sym : (a b : PackageRevisionKey) → same_row a b ≡ same_row b a
unfolding same_row
same_row_sym a b = ground (
  arith,
  eqb_iff a.pkg_key.repo_key.namespace b.pkg_key.repo_key.namespace,
  eqb_iff b.pkg_key.repo_key.namespace a.pkg_key.repo_key.namespace,
  eqb_iff (pkg_rev_k8s_name a) (pkg_rev_k8s_name b),
  eqb_iff (pkg_rev_k8s_name b) (pkg_rev_k8s_name a),
)

pub read-delete :
    (j k : PackageRevisionKey) (t : Table)
    → read_row k (delete_row j t) ≡ (if same_row j k then none else read_row k t)
unfolding read_row delete_row
read-delete j k [] = ground arith
read-delete j k (r ∷ t) = elim (Bool-cases (same_row j r.key)) [
  | inl e ↦ ground (arith, read-delete j k t, same_row_swap j r.key k, same_row_sym j k)
  | inr e ↦ ground (arith, read-delete j k t, same_row_swap k r.key j, same_row_sym j k)
]

preserved-key : (r x : Row) (a b : Option ℕ) → (preserved_markers r x a b).key ≡ r.key
preserved-key r x none (some t) = refl
preserved-key r x none none = refl
preserved-key r x (some s) b = refl

pub preserve-key : (r x : Row) → (preserve_push_markers r x).key ≡ r.key
unfolding preserve_push_markers
preserve-key r x = preserved-key r x r.last_pushed x.last_pushed

pub read-save :
    (r : Row) (k : PackageRevisionKey) (t : Table)
    → same_row r.key k ≡ false
    → read_row k (save_row r t) ≡ read_row k t
unfolding read_row save_row
read-save r k [] h = ground (arith, same_row_sym r.key k)
read-save r k (x ∷ t) h = elim (Bool-cases (same_row r.key x.key)) [
  | inl e ↦
      let other = same_row_swap r.key x.key k e in
      ground (arith, preserve-key r x, same_row_sym r.key k)
  | inr e ↦ ground (arith, read-save r k t h)
]
