-- ===== src/VariantSets.antt =====
-- controllers/packagevariantsets/pkg/controllers/packagevariantset/packagevariantset_controller.go: the
-- package variants of a set. The digest of a name, and the API server where it refuses a call, are
-- parameters.
pub mod Ensured
pub mod Created
pub mod Entries
pub mod Asked
pub mod Reconciled
use porch.Common.{
  is_some, ℕ, Bool, true, false, not, ◌&&◌, ◌||◌, Text, eqb, is_empty, codes, List, [], ◌∷◌, ◌++◌,
  Option, none, some, if◌then◌else◌, any, keep_if, map, length, take, leb,
}
use porch.Common.Int.{ℤ, ℤ_eq}
use porch.Common.Tables.{lookup, insert}

-- PackageVariantSpec; `Rest` stands for what renderPackageVariantSpec fills in besides the downstream.
pub record VariantSpec (Rest : Type 0) : Type 0 where
  pub repo : Text
  pub package_name : Text
  pub rest : Rest

-- A PackageVariant with the label of the set.
pub record PackageVariant (Rest : Type 0) : Type 0 where
  pub name : Text
  pub spec : VariantSpec Rest
  pub finalizers : List Text
  -- metadata.deletionTimestamp is set.
  pub deleting : Bool

-- The fields of a package revision that getUpstreamPR reads.
pub record UpstreamRevision : Type 0 where
  pub repository_name : Text
  pub package_name : Text
  pub revision : ℤ
  pub workspace_name : Text

-- getUpstreamPR
unfoldable pub get_upstream_pr : UpstreamRevision → List UpstreamRevision → Option UpstreamRevision
get_upstream_pr upstream [] = none
get_upstream_pr upstream (pr ∷ prs) =
    if eqb pr.repository_name upstream.repository_name
      && (eqb pr.package_name upstream.package_name
          && (ℤ_eq pr.revision upstream.revision || eqb pr.workspace_name upstream.workspace_name))
    then some pr
    else get_upstream_pr upstream prs

-- Where the API server refuses a call, by the name of the object; `taken` are the names of the package
-- variants that are not the set's.
pub record Cluster : Type 0 where
  pub delete_fails : Text → Bool
  pub update_fails : Text → Bool
  pub create_fails : Text → Bool
  pub taken : Text → Bool

-- packageVariantName
unfoldable pub package_variant_name : (Text → Text) → Text → Text
package_variant_name digest id =
    if leb (length id) 63 then id else take 54 id ++ (codes "-" ++ take 8 (digest id))

abbrev pub has_finalizer : List Text → Bool
has_finalizer [] = false
has_finalizer (f ∷ fs) = true

module _ {Rest : Type 0} where
  -- An update replaces the spec of the object with the name.
  abbrev pub update_spec :
      Text → VariantSpec Rest → List (PackageVariant Rest) → List (PackageVariant Rest)
  update_spec name s = map (λ w. if eqb w.name name then record w { spec = s } else w)

  -- What a Delete of the object with the name does: an object that has finalizers is only marked.
  unfoldable pub delete_object : Text → List (PackageVariant Rest) → List (PackageVariant Rest)
  delete_object name [] = []
  delete_object name (w ∷ ws) =
      let rest = delete_object name ws in
      if not (eqb w.name name)
      then w ∷ rest
      else if has_finalizer w.finalizers
      then record w { deleting = true } ∷ rest
      else rest

  abbrev pub and_next :
      Option (List (PackageVariant Rest))
      → (List (PackageVariant Rest) → Option (List (PackageVariant Rest)))
      → Option (List (PackageVariant Rest))
  and_next none f = none
  and_next (some s) f = f s

module _ {Rest : Type 0} (set_name : Text) where
  -- packageVariantIdentifier
  unfoldable pub package_variant_identifier : VariantSpec Rest → Text
  package_variant_identifier s =
      set_name ++ (codes "-" ++ (s.repo ++ (codes "-" ++ s.package_name)))

  -- existingPackageVariantMap and desiredPackageVariantMap
  unfoldable pub by_identifier :
      List (PackageVariant Rest)
      → List (Text × PackageVariant Rest)
      → List (Text × PackageVariant Rest)
  by_identifier [] m = m
  by_identifier (v ∷ vs) m = by_identifier vs (insert (package_variant_identifier v.spec) v m)

  unfoldable pub desired_variant : (Text → Text) → VariantSpec Rest → PackageVariant Rest
  desired_variant digest s = record {
    name = package_variant_name digest (package_variant_identifier s);
    spec = s;
    finalizers = codes "config.porch.kpt.dev/packagevariants" ∷ [];
    deleting = false;
  }

  module _ (k : Cluster) where
    -- The loop over the existing package variants: the ones that are there after it, or an error
    unfoldable pub delete_undesired :
        List (Text × PackageVariant Rest)
        → List (Text × PackageVariant Rest)
        → List (PackageVariant Rest)
        → Option (List (PackageVariant Rest))
    delete_undesired desired [] stored = some stored
    delete_undesired desired ((id, v) ∷ es) stored =
        let kept = delete_undesired desired es stored in
        let deleted = delete_undesired desired es (delete_object v.name stored) in
        if is_some (lookup id desired)
        then kept
        else if k.delete_fails v.name
        then none
        else deleted

    abbrev pub ensure_one :
        PackageVariant Rest
        → Option (PackageVariant Rest)
        → List (PackageVariant Rest)
        → Option (List (PackageVariant Rest))
    ensure_one d (some v) stored =
        if k.update_fails v.name then none else some (update_spec v.name d.spec stored)
    ensure_one d none stored =
        if k.create_fails d.name || (k.taken d.name || any (λ w. eqb w.name d.name) stored)
        then none
        else some (d ∷ stored)

    -- The loop over the desired package variants
    unfoldable pub ensure_desired :
        List (Text × PackageVariant Rest)
        → List (Text × PackageVariant Rest)
        → List (PackageVariant Rest)
        → Option (List (PackageVariant Rest))
    ensure_desired existing [] stored = some stored
    ensure_desired existing ((id, d) ∷ ds) stored =
        and_next (ensure_one d (lookup id existing) stored) (λ s. ensure_desired existing ds s)

    -- ensurePackageVariants, from the rendered specs of the downstreams
    unfoldable pub ensure_package_variants :
        (Text → Text)
        → List (VariantSpec Rest)
        → List (PackageVariant Rest)
        → Option (List (PackageVariant Rest))
    ensure_package_variants digest specs stored =
        let existing = by_identifier stored [] in
        let desired = by_identifier (map (λ s. desired_variant digest s) specs) [] in
        and_next (delete_undesired desired existing stored) (λ s. ensure_desired existing desired s)
