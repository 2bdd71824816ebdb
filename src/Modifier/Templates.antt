-- ===== src/Modifier/Templates.antt =====
-- The walks over the folders of the vault in pkg/vaulthelper/kv/Modifier.go. What `List` answers is
-- a parameter: a function of the path, or for the walk that goes down, the folders as a tree.
pub mod Complete
mod Examples
use tierceron.Base.{
  Bool, true, false, not, ◌&&◌, ◌||◌, Option, none, some, List, [], ◌∷◌, ◌++◌, if◌then◌else◌,
}
use tierceron.GoStrings.{Text, codes, text_eq, is_empty, split, trim_suffix}

-- what `List` answers: an error, no secret, or the keys of a folder
pub data Listing : Type 0 where
  refused : Listing
  missing : Listing
  listed : List Text → Listing

-- the keys of a folder as paths, without the folder `local/`
unfoldable pub paths_of : Text → List Text → List Text
paths_of path [] = []
paths_of path (key ∷ keys) =
    let rest = paths_of path keys in
    if text_eq key (codes "local/") then rest else (path ++ key) ∷ rest

-- `getPaths`; `none` is an error.
unfoldable pub get_paths : Listing → Text → Option (List Text)
get_paths refused path = none
get_paths missing path = some []
get_paths (listed keys) path = some (paths_of path keys)

-- A folder of the vault: one that cannot be listed, one that is not there, or its keys with what
-- stands below each.
mutual
  pub data Folder : Type 0 where
    locked : Folder
    absent : Folder
    folder : Keys → Folder

  pub data Keys : Type 0 where
    no_keys : Keys
    entry : Text → Folder → Keys → Keys

-- whether the first key marks a template
unfoldable pub is_template : Keys → Bool
is_template no_keys = false
is_template (entry name below rest) = text_eq name (codes "template-file")

-- `templateFileRecurse`, where an error is the empty list. A folder without keys, which a vault
-- does not list, counts as one that is not a template.
unfoldable mutual
  pub template_file_recurse : Text → Folder → List Text
  template_file_recurse path locked = []
  template_file_recurse path absent = []
  template_file_recurse path (folder keys) =
      let below = recurse_keys path keys in if is_template keys then path ∷ [] else below

  pub recurse_keys : Text → Keys → List Text
  recurse_keys path no_keys = []
  recurse_keys path (entry name below rest) =
      template_file_recurse (path ++ name) below ++ (path ++ name) ∷ recurse_keys path rest

unfoldable pub key_paths : Text → Keys → List Text
key_paths path no_keys = []
key_paths path (entry name below rest) = (path ++ name) ∷ key_paths path rest

unfoldable pub sub_paths : Text → Keys → List Text
sub_paths path no_keys = []
sub_paths path (entry name below rest) =
    template_file_recurse (path ++ name) below ++ sub_paths path rest

-- `GetTemplateFilePaths`; `none` is an error.
unfoldable pub get_template_file_paths : Text → Folder → Option (List Text)
get_template_file_paths path locked = none
get_template_file_paths path absent = some []
get_template_file_paths path (folder keys) =
    let below = sub_paths path keys in some (if is_empty below then key_paths path keys else below)

-- the last part of a path that is not empty
unfoldable pub last_part : List Text → Option Text
last_part [] = none
last_part (part ∷ parts) = elim (last_part parts) [
  | none ↦ if is_empty part then none else some part
  | some last ↦ some last
]

-- `getPathEnd`; `none` is an index out of range.
unfoldable pub get_path_end : Text → Option Text
get_path_end path = last_part (split path (codes "/"))

unfoldable pub index_names : List Text → List Text
index_names [] = []
index_names (key ∷ keys) = trim_suffix key (codes "/") ∷ index_names keys

-- `ListSubsection`; `none` is the error that nothing was found.
unfoldable pub list_subsection : Listing → Option (List Text)
list_subsection refused = none
list_subsection missing = none
list_subsection (listed keys) = some (index_names keys)

unfoldable pub has_service : Text → List Text → Bool
has_service service [] = false
has_service service (value ∷ values) =
    text_eq (trim_suffix value (codes "/")) service || has_service service values

-- The index of a service, which is empty where there is none, an error, or a panic.
pub data Index : Type 0 where
  index : Text → Index
  failed : Index
  panicked : Index

-- the values of an index, and the loop over the rest of the indexes
abbrev pub index_values : Text → Text → Listing → Index → Index
index_values service value refused rest = rest
index_values service value missing rest = panicked
index_values service value (listed values) rest =
    if has_service service values then index (trim_suffix value (codes "/")) else rest

abbrev pub index_keys : (Text → Listing) → Text → Text → Text → Listing → Index → Index
index_keys list service path value refused rest = rest
index_keys list service path value missing rest = panicked
index_keys list service path value (listed []) rest = panicked
index_keys list service path value (listed (first ∷ keys)) rest =
    index_values service value (list (path ++ (codes "/" ++ first))) rest

-- the loop over the indexes of a project
unfoldable pub find_index : (Text → Listing) → Text → Text → List Text → Index
find_index list service root [] = index []
find_index list service root (value ∷ values) =
    let path = root ++ (codes "/" ++ value) in
    index_keys list service path value (list path) (find_index list service root values)

abbrev pub find_in : (Text → Listing) → Text → Text → Listing → Index
find_in list service root refused = failed
find_in list service root missing = index []
find_in list service root (listed values) = find_index list service root values

-- `FindIndexForService`
unfoldable pub find_index_for_service : (Text → Listing) → Text → Text → Index
find_index_for_service list project service =
    let root = codes "super-secrets/Index/" ++ project in find_in list service root (list root)
