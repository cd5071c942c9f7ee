-- ===== src/Packages/Nested.antt =====
-- What ValidatePackagePathOverlap (pkg/repository/util.go) accepts.
use porch.Common.{
  true, false, ◌≡◌, ◌≢◌, ◌↔◌, inl, inr, refl, ap, ◌∙◌, arith, Text, eqb, eqb_iff, List, [], ◌∷◌,
  Option, none, Bool-cases, All, has_byte, ◌==◌, any-append,
}
use porch.Names.Paths.{slash, join_with, file_join}
use porch.Names.Segments.{IsSegment, file_join_segments}
use porch.Key.{PackageRevisionKey, to_pkg_pathname}
use porch.Packages.{
  paths_overlap, PathConflict, existing_paths, find_overlap, or_overlap,
  validate_package_path_overlap,
}
use porch.Packages.Overlap.{IsBelow, paths_overlap_iff}

-- The existing revision is of another repository, or neither its package name nor the new one lies
-- below the other, and they differ.
abbrev pub IsApart : Text → Text → PackageRevisionKey → Type 0
IsApart package_name repo k =
    k.pkg_key.repo_key.name ≡ repo
    → (k.pkg_key.package_name ≢ package_name)
      × (¬ IsBelow package_name k.pkg_key.package_name)
      × (¬ IsBelow k.pkg_key.package_name package_name)

overlap-none :
    (p q : Text) (ps : List Text)
    → (find_overlap p (q ∷ ps) ≡ none) ↔ ((paths_overlap p q ≡ false) × (find_overlap p ps ≡ none))
unfolding find_overlap
overlap-none p q ps = ground arith

not_overlap_iff : (p q : Text) → (paths_overlap p q ≡ false) ↔ ((¬ IsBelow p q) × (¬ IsBelow q p))
not_overlap_iff p q = (to, from)
  where
    to : paths_overlap p q ≡ false → (¬ IsBelow p q) × (¬ IsBelow q p)
    to h = (
      λ b. cc ((paths_overlap_iff p q).1 (inl b), h),
      λ b. cc ((paths_overlap_iff p q).1 (inr b), h),
    )

    from : (¬ IsBelow p q) × (¬ IsBelow q p) → paths_overlap p q ≡ false
    from (n, m) = elim (Bool-cases (paths_overlap p q)) [
      | inr e ↦ e
      | inl e ↦ elim ((paths_overlap_iff p q).0 e) [ inl b ↦ absurd (n b) | inr b ↦ absurd (m b) ]
    ]

module _ (package_name repo : Text) where
  abbrev rest_errors : List PackageRevisionKey → List Text → Option PathConflict
  rest_errors ks paths = or_overlap package_name (existing_paths package_name repo ks paths)

  accepted :
      (ks : List PackageRevisionKey) (paths : List Text)
      → rest_errors ks paths ≡ none
      → All (IsApart package_name repo) ks × (find_overlap package_name paths ≡ none)
  unfolding existing_paths
  accepted [] paths h = (tt, h)
  accepted (k ∷ ks) paths h = elim (Bool-cases (eqb k.pkg_key.repo_key.name repo)) [
    | inr e ↦
        let (a, f) = accepted ks paths (ground arith) in
        ((λ r. cc ((eqb_iff k.pkg_key.repo_key.name repo).1 r, e), a), f)
    | inl e ↦ elim (Bool-cases (eqb k.pkg_key.package_name package_name)) [
      | inl n ↦ cc (simp (e, n) at h)
      | inr n ↦
          let (a, f) = accepted ks (k.pkg_key.package_name ∷ paths) (simp (e, n) at h) in
          let (o, g) = (overlap-none package_name k.pkg_key.package_name paths).0 f in
          let (b, c) = (not_overlap_iff package_name k.pkg_key.package_name).0 o in
          ((λ r. (λ i. cc ((eqb_iff k.pkg_key.package_name package_name).1 i, n), b, c), a), g)
    ]
  ]

  accepts :
      (ks : List PackageRevisionKey) (paths : List Text)
      → All (IsApart package_name repo) ks
      → find_overlap package_name paths ≡ none
      → rest_errors ks paths ≡ none
  unfolding existing_paths
  accepts [] paths a f = f
  accepts (k ∷ ks) paths a f = elim (Bool-cases (eqb k.pkg_key.repo_key.name repo)) [
    | inr e ↦ ground (arith, accepts ks paths a.1 f)
    | inl e ↦
        let (n, b, c) = a.0 ((eqb_iff k.pkg_key.repo_key.name repo).0 e) in
        ground (
          arith,
          accepts ks (k.pkg_key.package_name ∷ paths) a.1 (
              (overlap-none package_name k.pkg_key.package_name paths).1
                ((not_overlap_iff package_name k.pkg_key.package_name).1 (b, c), f)),
          eqb_iff k.pkg_key.package_name package_name,
          n,
        )
  ]

  -- A new package name is accepted exactly if, among the existing revisions of its repository, the last
  -- path element of no package equals it, lies below it or has it below itself.
  pub validate_package_path_overlap_iff :
      (existing : List PackageRevisionKey)
      → (validate_package_path_overlap package_name repo existing ≡ none)
        ↔ All (IsApart package_name repo) existing
  unfolding validate_package_path_overlap
  validate_package_path_overlap_iff existing =
      (λ h. (accepted existing [] h).0, λ a. accepts existing [] a (unfold find_overlap in refl))

below-slash : (p q : Text) → IsBelow p q → has_byte slash p ≡ true
below-slash p q (r, e) = rw (e, any-append (λ x. x == slash) q (slash ∷ r)) (ground arith)

-- A package that lies below the new one is not noticed: if the one existing revision of the
-- repository is of a package in the directory of the new package's name, with another name of its own,
-- the new package is accepted though the paths overlap.
pub nested-unseen :
    (package_name repo : Text) (k : PackageRevisionKey)
    → IsSegment package_name
    → IsSegment k.pkg_key.package_name
    → k.pkg_key.path ≡ package_name
    → k.pkg_key.package_name ≢ package_name
    → (paths_overlap package_name (to_pkg_pathname k.pkg_key) ≡ true)
      × (validate_package_path_overlap package_name repo (k ∷ []) ≡ none)
unfolding to_pkg_pathname join_with
nested-unseen package_name repo k n s p d = (
  (paths_overlap_iff package_name (file_join k.pkg_key.path k.pkg_key.package_name)).1 (
      inr (
        k.pkg_key.package_name,
        ap (λ t. file_join t k.pkg_key.package_name) p
            ∙ file_join_segments (package_name ∷ []) k.pkg_key.package_name (n, tt) s,
      )),
  (validate_package_path_overlap_iff package_name repo (k ∷ [])).1 (
    λ r. (d, λ b. cc (below-slash _ _ b, n.no_slash), λ b. cc (below-slash _ _ b, s.no_slash)),
    tt,
  ),
)
