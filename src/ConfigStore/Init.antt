-- ===== src/ConfigStore/Init.antt =====
-- `Init` of pkg/cli/trcconfigbase/utils/dataStorePopulator.go behind the search for the paths. A
-- path is read by `read`, which is `mod.ReadData` with `none` for an error.
use tierceron.Base.{
  Bool, true, false, not, Option, none, some, List, [], ◌∷◌, ◌++◌, if◌then◌else◌, get_elem?,
}
use tierceron.ConfigStore.{Slot, plain, files, ConfigDataStore}
use tierceron.ConfigStore.Links.{Result, done, refused, panicked, ◌>>=◌, resolve, or_empty}
use tierceron.ConfigStore.Selection.{data_paths, found_wanted, file_dir, first_part}
use tierceron.GoMaps.{Map, fetch, store}
use tierceron.GoStrings.{Text, codes, text_eq, is_empty, split, replace_all}
use tierceron.Modifier.ReadData.{read_map_value}
use tierceron.Modifier.Vault.{Value, scalar, items, Scalar, text, Fields}

-- What the loop over the paths keeps: the store, and the links that are no files' values.
pub record Filling : Type 0 where
  pub data_map : Map Slot
  pub og_keys : List Text
  pub value_maps : List (List Text)

-- `val.(string)` for each value of a list; `none` is a panic.
unfoldable pub all_texts : List Scalar → Option (List Text)
all_texts [] = some []
all_texts (v ∷ rest) = elim (all_texts rest) [
  | none ↦ none
  | some ts ↦ elim v [ text t ↦ some (t ∷ ts) | _ ↦ none ]
]

abbrev pub take_link : Text → Option (List Text) → Filling → Result Filling
take_link key none f = panicked
take_link key (some ts) f = done record f {
  og_keys = f.og_keys ++ replace_all key (codes ".") (codes "_") ∷ [];
  value_maps = f.value_maps ++ ts ∷ [];
}

-- one value of a secret
unfoldable pub take_value : (secret_mode : Bool) → Text → Value → Filling → Result Filling
unfolding all_texts
take_value secret_mode key (scalar (text s)) f =
    if secret_mode then done f else done record f { data_map = store key (plain s) f.data_map }
take_value secret_mode key (items link) f = take_link key (all_texts link) f
take_value secret_mode key _ f = panicked

unfoldable pub take_values : Bool → Fields → Filling → Result Filling
unfolding take_value
take_values secret_mode [] f = done f
take_values secret_mode ((key, v) ∷ rest) f =
    take_value secret_mode key v f >>= take_values secret_mode rest

abbrev pub with_file : Text → Text → Fields → Map Slot → Option Slot → Map Slot
with_file service dir values m none = store service (files ((dir, values) ∷ [])) m
with_file service dir values m (some (files fs)) = store service (files (store dir values fs)) m
with_file service dir values m (some (plain s)) = m

-- The values of a file under the name of a service, unless a text stands there.
unfoldable pub put_file : Text → Text → Fields → Map Slot → Map Slot
put_file service dir values m = with_file service dir values m (fetch service m)

-- the values that are left, behind the common ones
unfoldable pub put_files : Text → Text → Fields × Fields → Map Slot → Map Slot
unfolding put_file
put_files service dir (values, common) m =
    put_file service dir values
      (if is_empty common then m else put_file (codes "Common") dir common m)

abbrev pub fields_or_nil : Option Fields → Fields
fields_or_nil none = []
fields_or_nil (some d) = d

unfoldable pub fill_file :
    (Text → Option Fields) → List Text → Text → Text → Text → Text → Filling → Result Filling
unfolding resolve put_files
fill_file read regions path project service dir f =
    if is_empty dir
    then done f
    else if is_empty service
    then done f
    else if is_empty project
    then done f
    else resolve read regions (fields_or_nil (read path)) >>= λ kept.
        done record f { data_map = put_files service dir kept f.data_map }

abbrev pub fill_parts :
    (Text → Option Fields)
    → List Text
    → Text
    → List Text
    → Option Text
    → Option Text
    → Filling
    → Result Filling
fill_parts read regions path parts (some project) (some service) f =
    fill_file read regions path project service (file_dir parts) f
fill_parts read regions path parts _ _ f = panicked

-- with `useDirs`: the parts of the path are read without a test that it has them
unfoldable pub fill_dirs :
    (Text → Option Fields) → List Text → Text → List Text → Filling → Result Filling
unfolding fill_file file_dir
fill_dirs read regions path parts f =
    fill_parts read regions path parts (get_elem? parts 1) (get_elem? parts 2) f

-- the value of a link that is no file's
abbrev pub put_link : (Text → Option Fields) → Text → Text → Text → Filling → Filling
put_link read bucket key name f =
    let found = or_empty (read_map_value (fields_or_nil (read bucket)) key) in
    record f { data_map = store name (plain found) f.data_map }

-- Without `useDirs`: the loop over the links. A bucket is kept once it is read, which changes
-- nothing where it is answered in one way.
unfoldable pub fill_links :
    (Text → Option Fields) → Bool → List Text → List (List Text) → Filling → Result Filling
fill_links read secret_mode (name ∷ names) ((bucket ∷ key ∷ []) ∷ rest) f =
    fill_links read secret_mode names rest (
      if not secret_mode
      then put_link read bucket key name f
      else if text_eq (first_part (split bucket (codes "/"))) (codes "super-secrets")
      then put_link read bucket key name f
      else f)
fill_links read secret_mode names [] f = done f
fill_links read secret_mode names (link ∷ rest) f =
    refused (codes "value path is not the correct length")

abbrev pub fill_read :
    (Text → Option Fields)
    → List Text
    → Bool
    → Bool
    → Text
    → Option Fields
    → Filling
    → Result Filling
fill_read read regions secret_mode use_dirs path none f = refused path
fill_read read regions secret_mode use_dirs path (some secrets) f =
    take_values secret_mode secrets f >>= λ g.
    if use_dirs
    then fill_dirs read regions path (split path (codes "/")) g
    else fill_links read secret_mode g.og_keys g.value_maps g

abbrev pub fill_wanted :
    (Text → Option Fields) → List Text → Bool → Bool → Text → Option Bool → Filling → Result Filling
fill_wanted read regions secret_mode use_dirs path none f = panicked
fill_wanted read regions secret_mode use_dirs path (some false) f = done f
fill_wanted read regions secret_mode use_dirs path (some true) f =
    fill_read read regions secret_mode use_dirs path (read path) f

-- one path
unfoldable pub fill_path :
    (Text → Option Fields) → List Text → Bool → Bool → List Text → Text → Filling → Result Filling
unfolding found_wanted take_values fill_dirs fill_links
fill_path read regions secret_mode use_dirs services path f =
    fill_wanted read regions secret_mode use_dirs path
      (found_wanted (split path (codes "/")) services) f

unfoldable pub fill_paths :
    (Text → Option Fields)
    → List Text
    → Bool
    → Bool
    → List Text
    → List Text
    → Filling
    → Result Filling
unfolding fill_path
fill_paths read regions secret_mode use_dirs services [] f = done f
fill_paths read regions secret_mode use_dirs services (path ∷ rest) f =
    fill_path read regions secret_mode use_dirs services path f
    >>= fill_paths read regions secret_mode use_dirs services rest

unfoldable pub fill_store :
    (Text → Option Fields)
    → List Text
    → Bool
    → Bool
    → List Text
    → List Text
    → Result ConfigDataStore
unfolding fill_paths
fill_store read regions secret_mode use_dirs services paths =
    fill_paths read regions secret_mode use_dirs services paths
      record { data_map = []; og_keys = []; value_maps = [] }
    >>= λ f. done record { data_map = f.data_map; regions = regions }

-- `Init`, with the paths that the search has found, or those of `commonPaths`
unfoldable pub init :
    (Text → Option Fields)
    → List Text
    → Bool
    → Bool
    → List Text
    → List Text
    → Result ConfigDataStore
unfolding fill_store data_paths
init read regions secret_mode use_dirs services full =
    let paths = data_paths full in
    if is_empty paths
    then refused (codes "no data paths found when initing CDS")
    else fill_store read regions secret_mode use_dirs services paths
