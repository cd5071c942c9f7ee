-- ===== src/Examples/Samples.antt =====
-- A migrated repository and a few package revisions of one package.
use porch.Common.{false, Text, codes, [], ◌∷◌, none, some}
use porch.Common.Int.{pos}
use porch.Lifecycle.{Lifecycle, draft, proposed, published}
use porch.PackageRevision.{
  PackageSource, SubpackageOperation, PackageRevisionSpec, PackageRevisionStatus, PackageRevision,
}
use porch.Webhook.Validator.{Repository, GetResult, found}

abbrev pub migrated : Repository
migrated = record {
  annotations = (codes "porch.kpt.dev/v1alpha2-migration", codes "true") ∷ [];
  deleting = false;
}

abbrev pub one_repository : Text → Text → GetResult
one_repository namespace name = found migrated

abbrev pub init_source : PackageSource
init_source = record {
  init = some (record { description = codes "a basic package"; keywords = []; site = [] });
  clone_from = none;
  copy_from = none;
  upgrade = none;
}

abbrev pub spec_of : Text → Lifecycle → PackageRevisionSpec
spec_of workspace lifecycle = record {
  package_name = codes "basens";
  repository_name = codes "blueprints";
  workspace_name = workspace;
  lifecycle = lifecycle;
  source = some init_source;
  subpackage_operation = none;
}

abbrev pub new_status : PackageRevisionStatus
new_status = record {
  revision = pos 0;
  observed_prr_resource_version = [];
  rendering_prr_resource_version = [];
  creation_source = [];
  last_subpackage_operation_hash = [];
  conditions = [];
}

abbrev pub revision_of : Text → Text → Lifecycle → PackageRevision
revision_of name workspace lifecycle = record {
  name = name;
  namespace = codes "default";
  uid = name;
  generation = 1;
  deleting = false;
  labels = [];
  annotations = [];
  finalizers = [];
  owner_references = [];
  spec = spec_of workspace lifecycle;
  status = new_status;
}

abbrev pub first_draft : PackageRevision
first_draft = revision_of (codes "blueprints.basens.v1") (codes "v1") draft

abbrev pub first_proposed : PackageRevision
first_proposed = revision_of (codes "blueprints.basens.v1") (codes "v1") proposed

abbrev pub first_published : PackageRevision
first_published = revision_of (codes "blueprints.basens.v1") (codes "v1") published

abbrev pub second_draft : PackageRevision
second_draft = revision_of (codes "blueprints.basens.v2") (codes "v2") draft

abbrev pub one_operation : SubpackageOperation
one_operation = record {
  subpackage_dir = codes "db";
  clone_from = some (record {
    upstream_type = codes "git";
    git = none;
    upstream_ref = some (codes "blueprints.db.v1");
  });
  upgrade = none;
}
