-- ===== src/Examples/VariantSets.antt =====
-- A set with one package variant to delete, one to change and one to create.
use porch.Common.{
  Bool, true, ◌≡◌, refl, false, codes, List, [], ◌∷◌, Text, eqb, some, none, Memᴰ, ◌∙◌, sym, ap,
  take,
}
use porch.Common.Int.{pos}
use porch.Common.Tables.{lookup, insert}
use porch.VariantSets.{
  VariantSpec, PackageVariant, Cluster, UpstreamRevision, get_upstream_pr,
  package_variant_identifier, package_variant_name, by_identifier, desired_variant,
  delete_undesired, ensure_desired, ensure_package_variants, delete_object,
}
use porch.VariantSets.Ensured.{spec_of}
use porch.VariantSets.Reconciled.{ensure-asked, AreAligned}
use porch.VariantSets.Asked.{asked_spec}

abbrev spec : Text → Text → Text → VariantSpec Text
spec repo package_name rest = record { repo = repo; package_name = package_name; rest = rest }

abbrev object : Text → VariantSpec Text → Bool → PackageVariant Text
object name s deleting = record {
  name = name;
  spec = s;
  finalizers = codes "config.porch.kpt.dev/packagevariants" ∷ [];
  deleting = deleting;
}

abbrev set : Text
set = codes "edge"

abbrev stored : List (PackageVariant Text)
stored =
    object (codes "edge-east-ns") (spec (codes "east") (codes "ns") (codes "old")) false
    ∷ object (codes "edge-west-ns") (spec (codes "west") (codes "ns") (codes "old")) false
    ∷ []

abbrev asked : List (VariantSpec Text)
asked =
    spec (codes "east") (codes "ns") (codes "new")
    ∷ spec (codes "north") (codes "ns") (codes "new")
    ∷ []

abbrev after : List (PackageVariant Text)
after =
    object (codes "edge-north-ns") (spec (codes "north") (codes "ns") (codes "new")) false
    ∷ object (codes "edge-east-ns") (spec (codes "east") (codes "ns") (codes "new")) false
    ∷ object (codes "edge-west-ns") (spec (codes "west") (codes "ns") (codes "old")) true
    ∷ []

abbrev cluster : Cluster
cluster = record {
  delete_fails = λ n. false;
  update_fails = λ n. false;
  create_fails = λ n. false;
  taken = λ n. false;
}

abbrev digest : Text → Text
digest t = take 8 t

run : ensure_package_variants set cluster digest asked stored ≡ some after
unfolding ensure_package_variants delete_undesired delete_object ensure_desired by_identifier
    desired_variant package_variant_name package_variant_identifier lookup insert eqb
run = refl

abbrev identifier : PackageVariant Text → Text
identifier v = package_variant_identifier set v.spec

named : (v : PackageVariant Text) → Memᴰ v stored → v.name ≡ identifier v
unfolding package_variant_identifier
named v (Memᴰ.head e) = ap (λ (u : PackageVariant Text). u.name) e ∙ sym (ap identifier e)
named v (Memᴰ.tail (Memᴰ.head e)) =
    ap (λ (u : PackageVariant Text). u.name) e ∙ sym (ap identifier e)
named v (Memᴰ.tail (Memᴰ.tail m)) = elim m [ ]

stored-AreAligned : AreAligned set stored
stored-AreAligned v w m n = ap (λ t. eqb t v.name) (named w n) ∙ ap (eqb (identifier w)) (named v m)

ensure-asked_example :
    spec_of set (codes "edge-west-ns") after ≡ asked_spec set (codes "edge-west-ns") asked none
ensure-asked_example =
    ensure-asked set cluster digest asked stored after (codes "edge-west-ns")
      ((λ h. refl), ((λ h. refl), tt)) stored-AreAligned run

-- With a workspace name and no revision, a draft is taken for the upstream.
abbrev upstream : UpstreamRevision
upstream = record {
  repository_name = codes "blueprints";
  package_name = codes "ns";
  revision = pos 0;
  workspace_name = codes "v3";
}

mistaken :
    get_upstream_pr upstream
      (record upstream { workspace_name = codes "w9" } ∷ record upstream { revision = pos 3 } ∷ [])
    ≡ some (record upstream { workspace_name = codes "w9" })
unfolding get_upstream_pr eqb
mistaken = refl
