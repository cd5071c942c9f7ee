-- ===== src/Webhook/Equality.antt =====
-- The comparisons of controllers/packagerevisions/pkg/webhooks/packagerevision_webhook.go.
use porch.Common.{
  Bool, true, false, not, ◌&&◌, ◌≡◌, ◌↔◌, refl, arith, Text, eqb, eqb_iff, List, [], ◌∷◌, Option,
  none, some,
}
use porch.PackageRevision.{
  PackageInitSpec, GitPackage, UpstreamPackage, PackageUpgradeSpec, PackageSource,
  SubpackageOperation,
}

-- The loop over the keywords, after the test of the lengths.
unfoldable pub keywords_equal : List Text → List Text → Bool
keywords_equal [] [] = true
keywords_equal [] (y ∷ ys) = false
keywords_equal (x ∷ xs) [] = false
keywords_equal (x ∷ xs) (y ∷ ys) = eqb x y && keywords_equal xs ys

unfoldable pub init_equal : PackageInitSpec → PackageInitSpec → Bool
init_equal a b =
    eqb a.description b.description && (eqb a.site b.site && keywords_equal a.keywords b.keywords)

-- `(p != nil) != (q != nil)` is unequal; two values are compared by `f`.
unfoldable pub option_equal {ℓ} : {A : Type ℓ} → (A → A → Bool) → Option A → Option A → Bool
option_equal f none none = true
option_equal f none (some y) = false
option_equal f (some x) none = false
option_equal f (some x) (some y) = f x y

unfoldable pub git_equal : GitPackage → GitPackage → Bool
git_equal a b =
    eqb a.repo b.repo
    && (eqb a.ref b.ref && (eqb a.directory b.directory && eqb a.secret_ref b.secret_ref))

unfoldable pub clone_from_equal : UpstreamPackage → UpstreamPackage → Bool
clone_from_equal a b =
    eqb a.upstream_type b.upstream_type
    && (option_equal git_equal a.git b.git && option_equal eqb a.upstream_ref b.upstream_ref)

unfoldable pub upgrade_equal : PackageUpgradeSpec → PackageUpgradeSpec → Bool
upgrade_equal a b =
    eqb a.old_upstream b.old_upstream
    && (eqb a.new_upstream b.new_upstream
        && (eqb a.current_package b.current_package && eqb a.strategy b.strategy))

unfoldable pub source_fields_equal : PackageSource → PackageSource → Bool
source_fields_equal a b =
    option_equal init_equal a.init b.init
    && (option_equal clone_from_equal a.clone_from b.clone_from
        && (option_equal eqb a.copy_from b.copy_from
            && option_equal upgrade_equal a.upgrade b.upgrade))

-- sourceEqual
unfoldable pub source_equal : Option PackageSource → Option PackageSource → Bool
source_equal = option_equal source_fields_equal

unfoldable pub operation_equal : SubpackageOperation → SubpackageOperation → Bool
operation_equal a b =
    eqb a.subpackage_dir b.subpackage_dir
    && (option_equal clone_from_equal a.clone_from b.clone_from
        && option_equal upgrade_equal a.upgrade b.upgrade)

-- subpackageOperationChanged
unfoldable pub subpackage_operation_changed :
    Option SubpackageOperation → Option SubpackageOperation → Bool
subpackage_operation_changed old new = not (option_equal operation_equal old new)

-- A test that decides equality.
abbrev pub Decides : {A : Type 0} → (A → A → Bool) → Type 0
Decides {A} f = (a b : A) → (f a b ≡ true) ↔ (a ≡ b)

option_equal-Decides : {A : Type 0} (f : A → A → Bool) → Decides f → Decides (option_equal f)
unfolding option_equal
option_equal-Decides f d none none = (λ h. refl, λ h. refl)
option_equal-Decides f d none (some y) = (λ h. cc, λ h. cc)
option_equal-Decides f d (some x) none = (λ h. cc, λ h. cc)
option_equal-Decides f d (some x) (some y) = ground (arith, d x y)

keywords_equal-Decides : Decides keywords_equal
unfolding keywords_equal
keywords_equal-Decides [] [] = (λ h. refl, λ h. refl)
keywords_equal-Decides [] (y ∷ ys) = (λ h. cc, λ h. cc)
keywords_equal-Decides (x ∷ xs) [] = (λ h. cc, λ h. cc)
keywords_equal-Decides (x ∷ xs) (y ∷ ys) = ground (arith, eqb_iff x y, keywords_equal-Decides xs ys)

init_equal-Decides : Decides init_equal
unfolding init_equal
init_equal-Decides a b = ground (
  arith,
  eqb_iff a.description b.description,
  eqb_iff a.site b.site,
  keywords_equal-Decides a.keywords b.keywords,
)

git_equal-Decides : Decides git_equal
unfolding git_equal
git_equal-Decides a b = ground (
  arith,
  eqb_iff a.repo b.repo,
  eqb_iff a.ref b.ref,
  eqb_iff a.directory b.directory,
  eqb_iff a.secret_ref b.secret_ref,
)

clone_from_equal-Decides : Decides clone_from_equal
unfolding clone_from_equal
clone_from_equal-Decides a b = ground (
  arith,
  eqb_iff a.upstream_type b.upstream_type,
  option_equal-Decides git_equal git_equal-Decides a.git b.git,
  option_equal-Decides eqb eqb_iff a.upstream_ref b.upstream_ref,
)

upgrade_equal-Decides : Decides upgrade_equal
unfolding upgrade_equal
upgrade_equal-Decides a b = ground (
  arith,
  eqb_iff a.old_upstream b.old_upstream,
  eqb_iff a.new_upstream b.new_upstream,
  eqb_iff a.current_package b.current_package,
  eqb_iff a.strategy b.strategy,
)

source_fields_equal-Decides : Decides source_fields_equal
unfolding source_fields_equal
source_fields_equal-Decides a b = ground (
  arith,
  option_equal-Decides init_equal init_equal-Decides a.init b.init,
  option_equal-Decides clone_from_equal clone_from_equal-Decides a.clone_from b.clone_from,
  option_equal-Decides eqb eqb_iff a.copy_from b.copy_from,
  option_equal-Decides upgrade_equal upgrade_equal-Decides a.upgrade b.upgrade,
)

-- Two creation sources are taken for equal exactly if they are the same source, whatever fields are
-- set.
pub source_equal_iff : (a b : Option PackageSource) → (source_equal a b ≡ true) ↔ (a ≡ b)
unfolding source_equal
source_equal_iff = option_equal-Decides source_fields_equal source_fields_equal-Decides

operation_equal-Decides : Decides operation_equal
unfolding operation_equal
operation_equal-Decides a b = ground (
  arith,
  eqb_iff a.subpackage_dir b.subpackage_dir,
  option_equal-Decides clone_from_equal clone_from_equal-Decides a.clone_from b.clone_from,
  option_equal-Decides upgrade_equal upgrade_equal-Decides a.upgrade b.upgrade,
)

-- A subpackage operation counts as unchanged exactly if it is the same operation, or none before
-- and after.
pub subpackage_operation_unchanged_iff :
    (a b : Option SubpackageOperation) → (subpackage_operation_changed a b ≡ false) ↔ (a ≡ b)
unfolding subpackage_operation_changed
subpackage_operation_unchanged_iff a b =
    ground (arith, option_equal-Decides operation_equal operation_equal-Decides a b)
