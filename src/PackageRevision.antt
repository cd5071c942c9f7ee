-- ===== src/PackageRevision.antt =====
-- The v1alpha2 PackageRevision: api/porch/v1alpha2, with the fields that the webhook and the
-- controller read. A pointer is an Option, a reference to another object its name.
use porch.Common.{ℕ, Bool, Text, List, Option}
use porch.Common.Int.{ℤ}
use porch.Common.Maps.{Dict}
use porch.Lifecycle.{Lifecycle}

pub record PackageInitSpec : Type 0 where
  pub description : Text
  pub keywords : List Text
  pub site : Text

pub record GitPackage : Type 0 where
  pub repo : Text
  pub ref : Text
  pub directory : Text
  pub secret_ref : Text

pub record UpstreamPackage : Type 0 where
  pub upstream_type : Text
  pub git : Option GitPackage
  pub upstream_ref : Option Text

pub record PackageUpgradeSpec : Type 0 where
  pub old_upstream : Text
  pub new_upstream : Text
  pub current_package : Text
  pub strategy : Text

pub record PackageSource : Type 0 where
  pub init : Option PackageInitSpec
  pub clone_from : Option UpstreamPackage
  pub copy_from : Option Text
  pub upgrade : Option PackageUpgradeSpec

pub record SubpackageOperation : Type 0 where
  pub subpackage_dir : Text
  pub clone_from : Option UpstreamPackage
  pub upgrade : Option PackageUpgradeSpec

pub record PackageRevisionSpec : Type 0 where
  pub package_name : Text
  pub repository_name : Text
  pub workspace_name : Text
  pub lifecycle : Lifecycle
  pub source : Option PackageSource
  pub subpackage_operation : Option SubpackageOperation

pub record OwnerReference : Type 0 where
  pub api_version : Text
  pub kind : Text
  pub name : Text
  pub uid : Text
  pub is_controller : Option Bool
  pub block_owner_deletion : Option Bool

-- metav1.Condition, with the time of the last transition as a number; 0 is the zero time.
pub record StatusCondition : Type 0 where
  pub condition_type : Text
  pub status : Text
  pub reason : Text
  pub last_transition : ℕ
  pub observed_generation : ℕ

pub record PackageRevisionStatus : Type 0 where
  pub revision : ℤ
  pub observed_prr_resource_version : Text
  pub rendering_prr_resource_version : Text
  pub creation_source : Text
  pub last_subpackage_operation_hash : Text
  pub conditions : List StatusCondition

pub record PackageRevision : Type 0 where
  pub name : Text
  pub namespace : Text
  pub uid : Text
  pub generation : ℕ
  pub deleting : Bool
  pub labels : Dict
  pub annotations : Dict
  pub finalizers : List Text
  pub owner_references : List OwnerReference
  pub spec : PackageRevisionSpec
  pub status : PackageRevisionStatus
