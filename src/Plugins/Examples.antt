-- ===== src/Plugins/Examples.antt =====
-- A plugin that is deployed in one region, and what the flags of its base come to.
use tierceron.Base.{◌≡◌, refl, some, [], ◌∷◌, arith}
use tierceron.GoStrings.{Text, codes, text_eq, contains, trim_suffix}
use tierceron.Modifier.Vault.{text, scalar, Fields, lookup, assign}
use tierceron.Plugins.{
  get_plugin_data, region_fields, base_fields, overlay_region, convert_flags, restore,
  region_suffix, resolve_token_name,
}
use tierceron.Plugins.Restored.{restore-get_plugin_data}

abbrev west : Text
west = codes "west"

abbrev plugin : Fields
plugin =
    (codes "trcsha256", scalar (text (codes "aa")))
    ∷ (codes "copied", scalar (text (codes "false")))
    ∷ (codes "trcsha256~west", scalar (text (codes "bb")))
    ∷ (codes "copied~west", scalar (text (codes "true")))
    ∷ []

restore-get_plugin_data_example :
    lookup
      (codes "trcsha256")
      (restore (region_suffix west) (get_plugin_data west plugin).1 (get_plugin_data west plugin).0)
    ≡ some (scalar (text (codes "aa")))
unfolding lookup contains text_eq
restore-get_plugin_data_example =
    restore-get_plugin_data west plugin (codes "trcsha256") (scalar (text (codes "aa"))) refl refl
      (ground arith) (ground arith) refl

-- The flag of the base was false before, and takes the value of the region.
copied_lost :
    lookup
      (codes "copied")
      (restore (region_suffix west) (get_plugin_data west plugin).1 (get_plugin_data west plugin).0)
    ≡ some (scalar (text (codes "true")))
unfolding get_plugin_data region_fields base_fields overlay_region convert_flags restore contains
    trim_suffix lookup assign
copied_lost = refl

token_of_unknown : resolve_token_name (codes "QB") ≡ codes "config_token_local"
unfolding resolve_token_name tierceron.GoStrings.Equality.mem_text text_eq
token_of_unknown = refl
