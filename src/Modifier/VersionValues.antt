-- ===== src/Modifier/VersionValues.antt =====
-- `GetVersionValues` of pkg/vaulthelper/kv/Modifier.go. What `List` and `ReadVersionMetadata`
-- answer to a modifier is a parameter.
pub mod Restored
mod Examples
use tierceron.Base.{
  ℕ, suc, Bool, true, false, not, ◌&&◌, ◌||◌, Option, none, some, List, [], ◌∷◌, ◌++◌, take, drop,
  length, if◌then◌else◌,
}
use tierceron.GoStrings.{
  Text, codes, text_eq, is_empty, has_prefix, has_suffix, contains, last_index, trim_prefix,
}
use tierceron.Modifier.{Modifier}
use tierceron.Modifier.Templates.{Listing, refused, missing, listed, get_paths}
use tierceron.Modifier.Vault.{Fields}

-- the metadata of each path
abbrev pub VersionData : Type 0
VersionData = List (Text × Fields)

-- What the vault answers: the paths below a path, and the metadata of a path, or an error.
pub record Answers : Type 0 where
  pub list : Modifier → Text → Listing
  pub metadata : Modifier → Text → Option Fields

-- A call returns data, nothing without an error, or an error.
pub data Values : Type 0 where
  values : VersionData → Values
  nothing : Values
  failed : Values

-- the environment without its version, where it has one, and what the code keeps to restore it
abbrev pub split_version : Text → Option ℕ → Text × Text
split_version env none = (env, env)
split_version env (some i) = (take i env, [])

-- the path of an index, and the environment in which it is read
abbrev pub indexed : Modifier → Text → Modifier × Text
indexed m engine = elim m.project_index [
  | [] ↦ (m, engine)
  | project ∷ projects ↦ (
    record m { env = m.raw_env },
    engine
        ++ (codes "/Index/"
            ++ (project ++ (codes "/" ++ (m.section_name ++ (codes "/" ++ m.sub_section_value))))),
  )
]

-- `strings.Replace(s, old, new, 1)` for an `old` that is not empty
unfoldable pub replace_first : Text → Text → Text → Text
replace_first [] old new = []
replace_first (c ∷ s) old new =
    let later = c ∷ replace_first s old new in
    if has_prefix (c ∷ s) old then new ++ drop (length old) (c ∷ s) else later

unfoldable pub clean_filters : List Text → List Text
clean_filters [] = []
clean_filters (service ∷ services) =
    (if contains service (codes "Common")
      then replace_first service (codes "Common") (codes "Common/")
      else service)
    ∷ clean_filters services

unfoldable pub ends_with_any : Text → List Text → Bool
ends_with_any path [] = false
ends_with_any path (service ∷ services) = has_suffix path service || ends_with_any path services

unfoldable pub names_any : Text → List Text → Bool
names_any path [] = false
names_any path (service ∷ services) =
    (has_suffix path service || has_suffix path (service ++ codes "/")) || names_any path services

unfoldable pub has_path : Text → VersionData → Bool
has_path path [] = false
has_path path ((p, f) ∷ found) = text_eq p path || has_path path found

abbrev pub add_data : Text → Fields → VersionData → VersionData
add_data path f found = if is_empty f then found else found ++ (path, f) ∷ []

abbrev pub cert_data : Text → Option Fields → VersionData → (VersionData → Values) → Values
cert_data path none found k = failed
cert_data path (some f) found k = k (add_data path f found)

-- The loop over the paths of certificates that a filter takes; an error ends the call.
unfoldable pub cert_values : Answers → Modifier → List Text → VersionData → Values
cert_values w m [] found = values found
cert_values w m (path ∷ paths) found =
    let rest = cert_values w m paths found in
    let read = cert_data path (w.metadata m path) found (cert_values w m paths) in
    if not (is_empty path) && ends_with_any path m.version_filter
    then if has_path path found then rest else read
    else rest

abbrev pub or_empty : Option Fields → Fields
or_empty none = []
or_empty (some f) = f

abbrev pub service_path : Modifier → Text → Text → Text
service_path m engine path =
    engine ++ (codes "/" ++ (path ++ trim_prefix m.sub_section_name (codes "/")))

-- The loop over the paths of services that a filter takes; an error is only logged.
unfoldable pub service_values : Answers → Modifier → Text → List Text → VersionData → VersionData
service_values w m engine [] found = found
service_values w m engine (path ∷ paths) found =
    let full = service_path m engine path in
    let read = add_data full (or_empty (w.metadata m full)) found in
    let next = if has_path full found then found else read in
    service_values w m engine paths
      (if not (is_empty path) && names_any path m.version_filter then next else found)

-- The end of the call: the environment is restored to what has been kept of it.
abbrev pub restored : Text → Modifier → Values → Values × Modifier
restored kept m (values found) =
    (if is_empty found then failed else values found, record m { env = kept })
restored kept m nothing = (nothing, m)
restored kept m failed = (failed, m)

abbrev pub cert_paths : Answers → Text → Modifier → Option (List Text) → Values × Modifier
cert_paths w kept m none = (failed, m)
cert_paths w kept m (some paths) =
    let cleaned = record m { version_filter = clean_filters m.version_filter } in
    restored kept cleaned (cert_values w cleaned paths [])

abbrev pub with_paths : Answers → Bool → Text → Modifier → Text → Listing → Values × Modifier
with_paths w want_certs kept m engine refused = (failed, m)
with_paths w want_certs kept m engine missing = (nothing, m)
with_paths w want_certs kept m engine (listed paths) =
    let common = codes "values/Common/" in
    if want_certs
    then cert_paths w kept m (get_paths (w.list m common) common)
    else restored kept m (values (service_values w m engine paths []))

-- `GetVersionValues` of a modifier that is given to itself, as it is by all callers: what it returns,
-- and the modifier after it
unfoldable pub get_version_values : Answers → Modifier → Bool → Text → Values × Modifier
get_version_values w m want_certs engine =
    let (env, kept) = split_version m.env (last_index m.env (codes "_")) in
    let (n, path) = indexed (record m { env = env }) engine in
    with_paths w want_certs kept n path (w.list n (path ++ codes "/"))
