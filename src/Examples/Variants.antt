-- ===== src/Examples/Variants.antt =====
-- A variant that owns a draft of its package and a published revision of another one.
use porch.Common.{
  ◌<◌, true, ◌≡◌, ◌≢◌, refl, arith, Text, codes, List, [], ◌∷◌, Memᴰ, none, some, All, eqb,
}
use porch.Common.Int.{pos}
use porch.Lifecycle.{Lifecycle, draft, published}
use porch.PackageRevision.{OwnerReference}
use porch.Variants.{Revision, Downstream, Variant, adopt_none, delete_policy, get_downstream_prs}
use porch.Variants.Targets.{targets}
use porch.Variants.Chosen.{IsChosen, get_downstream_prs-IsChosen}
use porch.Variants.Safety.{IsJustified, effects-IsJustified}
use porch.Variants.Workspace.{
  workspace_number, after_prefix, atoi, new_workspace_name, new_workspace_name-fresh,
}
use porch.DataSize.{max_int64, digits_value}

abbrev reference : OwnerReference
reference = record {
  api_version = codes "config.porch.kpt.dev/v1alpha1";
  kind = codes "PackageVariant";
  name = codes "pv";
  uid = codes "u7";
  is_controller = some true;
  block_owner_deletion = none;
}

abbrev target : Downstream
target = record { repo = codes "deploy"; package_name = codes "db" }

abbrev variant : Variant
variant = record {
  uid = codes "u7";
  reference = reference;
  upstream = none;
  downstream = some target;
  adoption_policy = adopt_none;
  deletion_policy = delete_policy;
  labels = [];
  annotations = [];
}

abbrev owned : Text → Text → Lifecycle → Revision
owned package_name workspace lifecycle = record {
  name = workspace;
  owners = reference ∷ [];
  labels = [];
  annotations = [];
  repository_name = codes "deploy";
  package_name = package_name;
  workspace_name = workspace;
  revision = pos 1;
  lifecycle = lifecycle;
}

abbrev current : Revision
current = owned (codes "db") (codes "packagevariant-3") draft

abbrev listed : List Revision
listed = owned (codes "old") (codes "packagevariant-1") published ∷ current ∷ []

get_downstream_prs-IsChosen_example :
    IsChosen (targets variant target listed) (get_downstream_prs variant target listed).0
get_downstream_prs-IsChosen_example = get_downstream_prs-IsChosen variant target listed

effects-IsJustified_example :
    All (IsJustified variant target listed) (get_downstream_prs variant target listed).1
effects-IsJustified_example = effects-IsJustified variant target listed

number_in_use : workspace_number (codes "db") (codes "deploy") 0 listed ≡ 3
unfolding workspace_number after_prefix atoi digits_value eqb
number_in_use = refl

few_in_use : workspace_number (codes "db") (codes "deploy") 0 listed < max_int64
few_in_use = rw number_in_use (omega arith)

new_workspace_name-fresh_example :
    current.workspace_name ≢ new_workspace_name listed (codes "db") (codes "deploy")
new_workspace_name-fresh_example =
    new_workspace_name-fresh listed (codes "db") (codes "deploy") few_in_use current
      (Memᴰ.tail (Memᴰ.head refl)) refl refl
