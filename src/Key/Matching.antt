-- ===== src/Key/Matching.antt =====
-- Which keys the `Matches` methods of api/porch/key/types.go accept: an empty field is a wildcard.
use porch.Common.{true, ◌≡◌, ◌↔◌, ◌⊎◌, arith, Text, eqb_iff, is_empty}
use porch.Common.Int.{ℤ, pos, ℤ_eq_iff}
use porch.Key.{
  RepositoryKey, PackageKey, PackageRevisionKey, text_matches, revision_matches, repository_matches,
  package_matches, package_revision_matches,
}

-- A field of the filter is empty or has the other key's value.
abbrev pub Fits : Text → Text → Type 0
Fits a b = (is_empty a ≡ true) ⊎ (a ≡ b)

text_matches_iff : (a b : Text) → (text_matches a b ≡ true) ↔ Fits a b
unfolding text_matches
text_matches_iff a b = (to, from)
  where
    to : text_matches a b ≡ true → Fits a b
    to h = ground (arith, eqb_iff a b)

    from : Fits a b → text_matches a b ≡ true
    from h = ground (arith, eqb_iff a b)

pub record RepositoryFits (k other : RepositoryKey) : Type 0 where
  pub namespace_fits : Fits k.namespace other.namespace
  pub name_fits : Fits k.name other.name
  pub path_fits : Fits k.path other.path
  pub placeholder_fits : Fits k.placeholder_ws_name other.placeholder_ws_name

pub record RevisionFits (k other : PackageRevisionKey) : Type 0 where
  pub revision_fits : (k.revision ≡ pos 0) ⊎ (k.revision ≡ other.revision)
  pub workspace_fits : Fits k.workspace_name other.workspace_name
  pub path_fits : Fits k.pkg_key.path other.pkg_key.path
  pub package_fits : Fits k.pkg_key.package_name other.pkg_key.package_name
  pub repository_fits : RepositoryFits k.pkg_key.repo_key other.pkg_key.repo_key

repository_matches_iff :
    (k o : RepositoryKey) → (repository_matches k o ≡ true) ↔ RepositoryFits k o
unfolding repository_matches
repository_matches_iff k o = (
  λ h. ground (
    arith,
    text_matches_iff k.namespace o.namespace,
    text_matches_iff k.name o.name,
    text_matches_iff k.path o.path,
    text_matches_iff k.placeholder_ws_name o.placeholder_ws_name,
  ),
  λ f. ground (
    arith,
    text_matches_iff k.namespace o.namespace,
    text_matches_iff k.name o.name,
    text_matches_iff k.path o.path,
    text_matches_iff k.placeholder_ws_name o.placeholder_ws_name,
  ),
)

revision_matches_iff : (a b : ℤ) → (revision_matches a b ≡ true) ↔ ((a ≡ pos 0) ⊎ (a ≡ b))
unfolding revision_matches
revision_matches_iff a b = (
  λ h. ground (arith, ℤ_eq_iff a (pos 0), ℤ_eq_iff a b),
  λ h. ground (arith, ℤ_eq_iff a (pos 0), ℤ_eq_iff a b),
)

package_matches_iff :
    (k o : PackageKey)
    → (package_matches k o ≡ true) ↔ (
        Fits k.path o.path
        × Fits k.package_name o.package_name
        × RepositoryFits k.repo_key o.repo_key)
unfolding package_matches
package_matches_iff k o = (
  λ h. ground (
    arith,
    text_matches_iff k.path o.path,
    text_matches_iff k.package_name o.package_name,
    repository_matches_iff k.repo_key o.repo_key,
  ),
  λ f. ground (
    arith,
    text_matches_iff k.path o.path,
    text_matches_iff k.package_name o.package_name,
    repository_matches_iff k.repo_key o.repo_key,
  ),
)

-- A key matches another exactly when each of its fields is the wildcard (revision 0, or an empty
-- text) or equals the other key's field.
pub matches_iff :
    (k o : PackageRevisionKey) → (package_revision_matches k o ≡ true) ↔ RevisionFits k o
unfolding package_revision_matches
matches_iff k o = (
  λ h. ground (
    arith,
    revision_matches_iff k.revision o.revision,
    text_matches_iff k.workspace_name o.workspace_name,
    package_matches_iff k.pkg_key o.pkg_key,
  ),
  λ f. ground (
    arith,
    revision_matches_iff k.revision o.revision,
    text_matches_iff k.workspace_name o.workspace_name,
    package_matches_iff k.pkg_key o.pkg_key,
  ),
)
