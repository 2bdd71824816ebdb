-- ===== src/Modifier/Paths.antt =====
-- The full path that each operation of the `Modifier` asks the vault for. `none` is the panic of an
-- index out of range, for a path without a slash.
pub mod Agreement
pub mod Isolation
use tierceron.Base.{
  Bool, true, false, not, ◌&&◌, ◌||◌, Option, none, some, [], ◌∷◌, ◌++◌, if◌then◌else◌,
}
use tierceron.GoStrings.{
  Text, codes, text_eq, is_empty, has_prefix, has_suffix, contains, replace_all, trim_suffix,
  split_after,
}
use tierceron.Modifier.{Modifier}

-- `noEnvironments`
unfoldable pub no_environments : Text → Bool
unfolding text_eq
no_environments bucket = text_eq bucket (codes "templates/") || text_eq bucket (codes "cubbyhole/")

-- The environment of the path where the bucket has one, or where it is a local one.
unfoldable pub env_or_local : Text → Text → Text
unfolding no_environments has_prefix
env_or_local env bucket =
    if not (no_environments bucket)
    then env ++ codes "/"
    else if has_prefix env (codes "local")
    then env ++ codes "/"
    else []

-- the environment of the path where the bucket has one
unfoldable pub env_part : Text → Text → Text
unfolding no_environments
env_part env bucket = if not (no_environments bucket) then env ++ codes "/" else []

-- `pathBlocks[0]`, with a slash where it is the whole path
abbrev pub closed : Text → Option Text → Text
closed bucket none = bucket ++ codes "/"
closed bucket (some rest) = bucket

abbrev pub or_nothing : Option Text → Text
or_nothing none = []
or_nothing (some rest) = rest

abbrev pub map_some : (Text → Text) → Option Text → Option Text
map_some f none = none
map_some f (some rest) = some (f rest)

abbrev pub add_rest : Text → Option Text → Text
add_rest full none = full
add_rest full (some rest) =
    if contains full (codes "/" ++ (rest ++ codes "/")) then full else full ++ rest

abbrev pub super_secrets : Text
super_secrets = codes "/super-secrets/"

-- the path of `Write` before the super-secrets are taken out
unfoldable pub raw_write_path : Modifier → Text → Text
unfolding split_after env_or_local has_prefix contains
raw_write_path m path =
    let (head, rest) = split_after path b'/' in
    let bucket = closed head rest in
    let full = bucket ++ (codes "data/" ++ env_or_local m.env bucket) in
    let section =
      if not (is_empty m.section_path) && not (has_prefix full (codes "templates"))
      then full ++ (m.section_path ++ codes "/")
      else full in
    add_rest section rest

-- `Write`
unfoldable pub write_path : Modifier → Text → Text
unfolding raw_write_path contains replace_all
write_path m path =
    let full = raw_write_path m path in
    if contains full super_secrets then replace_all full super_secrets (codes "/") else full

-- The path that `ReadData` takes in place of its argument.
unfoldable pub section_or_path : Modifier → Text → Text
unfolding has_prefix contains replace_all trim_suffix
section_or_path m path =
    let section =
      if contains path (codes "values")
      then replace_all m.section_path (codes "super-secrets") (codes "values")
      else m.section_path in
    let templates = has_prefix path (codes "templates") in
    let metrics = has_prefix path (codes "value-metrics") in
    if not (is_empty m.section_path) && (not templates && not metrics)
    then trim_suffix section (codes "/")
    else path

-- `ReadData`, for the path that it reads
unfoldable pub read_data_path : Modifier → Text → Text
unfolding split_after env_or_local
read_data_path m path =
    let (bucket, rest) = split_after path b'/' in
    bucket ++ (codes "data/" ++ (env_or_local m.env bucket ++ or_nothing rest))

-- the path in a folder of the bucket, which must have a second part
unfoldable pub folder_path : Modifier → Text → Text → Option Text
unfolding split_after env_part
folder_path m folder path =
    let (bucket, rest) = split_after path b'/' in
    map_some (λ r. bucket ++ (folder ++ (env_part m.env bucket ++ r))) rest

-- `ReadMetadata`
unfoldable pub read_metadata_path : Modifier → Text → Option Text
unfolding folder_path
read_metadata_path m path = folder_path m (codes "data/") path

-- `ReadVersionMetadata`
unfoldable pub version_metadata_path : Modifier → Text → Text
unfolding split_after env_part
version_metadata_path m path =
    let (bucket, rest) = split_after path b'/' in
    bucket ++ (codes "metadata/" ++ (env_part m.env bucket ++ or_nothing rest))

abbrev pub list_rest : Text → Option Text → Text
list_rest full none = full
list_rest full (some rest) =
    (if has_suffix full (codes "/") then full else full ++ codes "/") ++ rest

-- `List`
unfoldable pub list_path : Modifier → Text → Text
unfolding split_after env_or_local has_suffix
list_path m path =
    let (head, rest) = split_after path b'/' in
    let bucket = closed head rest in
    let env = env_or_local m.env bucket in
    list_rest (bucket ++ (codes "metadata" ++ (if is_empty env then [] else codes "/" ++ env))) rest

-- `ListEnv`
unfoldable pub list_env_path : Text → Text
unfolding split_after
list_env_path path =
    let (head, rest) = split_after path b'/' in
    closed head rest ++ (codes "metadata/" ++ or_nothing rest)

-- the path with the bucket that `SoftDelete` and `HardDelete` assume
unfoldable pub secret_path : Text → Text
unfolding has_prefix
secret_path path =
    if not (has_prefix path (codes "super-secrets")) && not (has_prefix path (codes "values"))
    then codes "super-secrets/" ++ path
    else path

-- `fullDataPath` of `SoftDelete` and `HardDelete`
unfoldable pub delete_data_path : Modifier → Text → Option Text
unfolding folder_path secret_path
delete_data_path m path = folder_path m (codes "data/") (secret_path path)

-- `fullMetadataPath` of `HardDelete`
unfoldable pub delete_metadata_path : Modifier → Text → Option Text
unfolding folder_path secret_path
delete_metadata_path m path = folder_path m (codes "metadata/") (secret_path path)
