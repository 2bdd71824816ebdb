-- ===== src/ConfigStore.antt =====
-- pkg/cli/trcconfigbase/utils/dataStorePopulator.go: the values of a template. This file holds the
-- store and the functions that read it.
pub mod Selection
pub mod Links
pub mod Linked
pub mod Buckets
pub mod Followed
pub mod Init
pub mod Found
pub mod Stored
pub mod Filled
pub mod Lookup
pub mod Paths
pub mod VersionData
mod Examples
use tierceron.Base.{Bool, true, false, Option, none, some, List, [], ◌∷◌, ◌++◌, if◌then◌else◌, ℕ}
use tierceron.GoMaps.{Map, fetch}
use tierceron.GoStrings.{Text, codes, text_eq, join, replace_all}
use tierceron.Modifier.Vault.{Value, scalar, text, Fields}

-- What stands under a name of the store: a text, or the values of each file of a service.
pub data Slot : Type 0 where
  plain : Text → Slot
  files : Map Fields → Slot

-- `ConfigDataStore`
pub record ConfigDataStore : Type 0 where
  pub data_map : Map Slot
  pub regions : List Text

-- The map that `configPart` stands for: the files of a service, the values of a file, or the nil
-- map behind a value that is no map.
pub data Place : Type 0 where
  at_files : Map Fields → Place
  at_values : Fields → Place
  lost : Place

-- The loop over a map for one part of the path, with the flag `configPartOk`; what an entry leads
-- to is given.
unfoldable pub scan_part :
    {A : Type 0} → (A → Place × Bool) → Text → Map A → Place → Bool → Place × Bool
scan_part child part [] here ok = (here, ok)
scan_part child part ((k, v) ∷ rest) here ok =
    let later = scan_part child part rest here false in if text_eq k part then child v else later

abbrev pub into_file : Fields → Place × Bool
into_file values = (at_values values, true)

abbrev pub into_value : Value → Place × Bool
into_value v = (lost, false)

unfoldable pub descend : Text → Place → Place × Bool
unfolding scan_part
descend part (at_files fs) = scan_part into_file part fs (at_files fs) true
descend part (at_values vs) = scan_part into_value part vs (at_values vs) true
descend part lost = (lost, true)

-- The loop over the parts of the path, which ends at the first that is not found.
unfoldable pub descend_all : List Text → Place → Place × Bool
unfolding descend
descend_all [] here = (here, true)
descend_all (part ∷ parts) here =
    let (next, ok) = descend part here in
    let rest = descend_all parts next in if ok then rest else (next, false)

abbrev pub text_of : Option Value → Option Text
text_of (some (scalar (text s))) = some s
text_of _ = none

-- `configPart[key]` as a text; what stands in a map of files is none
abbrev pub value_in : Text → Place → Option Text
value_in key (at_values vs) = text_of (fetch key vs)
value_in key _ = none

-- the name under which a file in folders is kept
abbrev pub nested_key : List Text → Text
nested_key key_path = codes "/" ++ join key_path (codes "/")

abbrev pub file_value : Text → Option Fields → Option Text
file_value key none = none
file_value key (some vs) = text_of (fetch key vs)

-- the nested algorithm, at the place where the path was lost
unfoldable pub nested_value : List Text → Text → Place → Option Text
nested_value key_path key (at_files fs) = file_value key (fetch (nested_key key_path) fs)
nested_value key_path key _ = none

abbrev pub value_found : List Text → Text → Place × Bool → Option Text
value_found key_path key (here, true) = value_in key here
value_found key_path key (here, false) = nested_value key_path key here

abbrev pub slot_value : List Text → Text → Option Slot → Option Text
slot_value key_path key (some (files fs)) =
    value_found key_path key (descend_all key_path (at_files fs))
slot_value key_path key _ = none

-- `GetValue`; `none` is the error that no value is found.
unfoldable pub get_value : ConfigDataStore → Text → List Text → Text → Option Text
unfolding descend_all
get_value cds service key_path key = slot_value key_path key (fetch service cds.data_map)

abbrev pub slot_file : Text → Option Slot → Option Fields
slot_file config (some (files fs)) = fetch config fs
slot_file config _ = none

-- `GetConfigValues`
unfoldable pub get_config_values : ConfigDataStore → Text → Text → Option Fields
get_config_values cds service config = slot_file config (fetch service cds.data_map)

-- `GetConfigValue`
unfoldable pub get_config_value : ConfigDataStore → Text → Text → Text → Option Text
unfolding get_config_values
get_config_value cds service config key =
    file_value (replace_all key (codes ".") (codes "_")) (get_config_values cds service config)
