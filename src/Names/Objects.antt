-- ===== src/Names/Objects.antt =====
-- api/util/util.go: validation of names, and the composed names of Package and PackageRevision
-- objects. IsDNS1123Label and IsDNS1123Subdomain belong to k8s.io/apimachinery and are parameters:
-- each returns the messages of what is wrong with a text, none for a valid one.
use porch.Common.{
  Bool, true, false, not, ◌||◌, Text, List, [], ◌∷◌, ◌++◌, ◌==◌, map, if◌then◌else◌, is_empty,
  codes, replace_byte, contains,
}
use porch.Names.Paths.{slash, dot, file_join, trim}

pub record Dns : Type 0 where
  pub label : Text → List Text
  pub subdomain : Text → List Text

-- The messages of the errors, without the names that they quote.
pub data NameError : Type 0 where
  double_slash : NameError
  dns_message : Text → NameError
  repository_part path_part package_part workspace_part object_part : NameError

abbrev pub no_errors : List NameError → Bool
no_errors [] = true
no_errors (e ∷ es) = false

-- ReplaceAll(directory, "/", "")
unfoldable pub without_slashes : Text → Text
without_slashes [] = []
without_slashes (x ∷ s) = let rest = without_slashes s in if x == slash then rest else x ∷ rest

-- The errors of a part, behind the message that names the part.
unfoldable pub add_part : NameError → List NameError → List NameError
add_part part [] = []
add_part part (e ∷ es) = part ∷ e ∷ es

-- The check of the composed name, made only if the parts are valid: the errors of the parts, or
-- those of the name that the subdomain check returns.
unfoldable pub valid_object : List NameError → List Text → List NameError
unfolding add_part
valid_object [] messages = add_part object_part (map dns_message messages)
valid_object (e ∷ es) messages = e ∷ es

module _ (dns : Dns) where
  -- ValidateK8SName; an empty list is the nil error
  unfoldable pub validate_k8s_name : Text → List NameError
  validate_k8s_name name = map dns_message (dns.label name)

  -- ValidateDirectoryName(directory, mandatory)
  unfoldable pub validate_directory_name : Text → Bool → List NameError
  unfolding without_slashes contains
  validate_directory_name directory mandatory =
      let bare = without_slashes directory in
      if mandatory || not (is_empty bare)
      then (if contains (codes "//") directory then double_slash ∷ [] else [])
        ++ map dns_message (dns.label bare)
      else []

  -- ValidateRepository
  unfoldable pub validate_repository : Text → Text → List NameError
  unfolding validate_directory_name
  validate_repository name directory =
      map dns_message (dns.label name) ++ validate_directory_name directory false

  -- validPkgNamePart
  unfoldable pub valid_pkg_name_part : Text → Text → Text → List NameError
  unfolding validate_repository validate_k8s_name add_part
  valid_pkg_name_part repo path package_name =
      add_part repository_part (validate_repository repo [])
      ++ (add_part path_part (validate_directory_name path false)
          ++ add_part package_part (validate_k8s_name package_name))

-- The path and name of a package, its elements joined by dots.
unfoldable pub dotted_path : Text → Text → Text
dotted_path path package_name = trim dot (replace_byte slash dot (file_join path package_name))

-- ComposePkgObjName
unfoldable pub compose_pkg_obj_name : Text → Text → Text → Text
compose_pkg_obj_name repo path package_name =
    if is_empty repo || is_empty package_name
    then []
    else repo ++ (dot ∷ dotted_path path package_name)

-- ComposePkgRevObjName
unfoldable pub compose_pkg_rev_obj_name : Text → Text → Text → Text → Text
compose_pkg_rev_obj_name repo path package_name workspace =
    if is_empty repo || (is_empty package_name || is_empty workspace)
    then []
    else repo ++ (dot ∷ (dotted_path path package_name ++ (dot ∷ workspace)))

module _ (dns : Dns) where
  -- ValidPkgObjName
  unfoldable pub valid_pkg_obj_name : Text → Text → Text → List NameError
  valid_pkg_obj_name repo path package_name =
      valid_object (valid_pkg_name_part dns repo path package_name)
        (dns.subdomain (compose_pkg_obj_name repo path package_name))

  -- ValidPkgRevObjName
  unfoldable pub valid_pkg_rev_obj_name : Text → Text → Text → Text → List NameError
  valid_pkg_rev_obj_name repo path package_name workspace =
      valid_object
        (valid_pkg_name_part dns repo path package_name
          ++ add_part workspace_part (validate_k8s_name dns workspace))
        (dns.subdomain (compose_pkg_rev_obj_name repo path package_name workspace))
