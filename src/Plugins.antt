-- ===== src/Plugins.antt =====
-- pkg/core/util/properties.go: the section that properties are read from, the token of an
-- environment, and the data of a plugin, which is read for a region and written back.
pub mod Kept
pub mod Restored
mod Examples
use tierceron.Base.{
  ℕ, ◌+◌, Bool, true, false, not, ◌&&◌, ◌||◌, Option, none, some, List, [], ◌∷◌, ◌++◌,
  if◌then◌else◌,
}
use tierceron.GoStrings.{Text, codes, text_eq, is_empty, contains, trim_suffix}
use tierceron.GoStrings.Equality.{mem_text}
use tierceron.Modifier.{Modifier}
use tierceron.Modifier.Operations.{write_data}
use tierceron.Modifier.ReadData.{Memory, read_data}
use tierceron.Modifier.Vault.{
  text, bool, Value, scalar, Fields, Vault, Outcome, returned, panicked, lookup, assign,
}

abbrev properties_section : Modifier → Text → Text → Text
properties_section m project service =
    let root = codes "super-secrets" ++ m.section_key in
    let sub = project ++ codes "/" ++ m.section_name ++ codes "/" ++ m.sub_section_value in
    if not (is_empty m.section_name) && not (is_empty m.sub_section_value)
    then if text_eq m.section_key (codes "/Index/")
      then root ++ sub ++ codes "/" ++ service
      else root ++ sub
    else if text_eq m.section_key (codes "/Restricted/")
        || text_eq m.section_key (codes "/Protected/")
    then root ++ service ++ codes "/" ++ m.section_name
    else []

-- whether the section is restricted or protected and has no value of a subsection
abbrev is_guarded : Modifier → Bool
is_guarded m =
    not (not (is_empty m.section_name) && not (is_empty m.sub_section_value))
    && (text_eq m.section_key (codes "/Restricted/") || text_eq m.section_key (codes "/Protected/"))

-- `NewProperties`: the modifier and the service that the data store is filled with
unfoldable pub new_properties : Modifier → Text → Text → Text → Modifier × Text
new_properties m env project service = (
  record m { env = env; section_path = properties_section m project service },
  if is_guarded m && text_eq project service then m.section_name else service,
)

abbrev token_environments : List Text
token_environments =
    codes "local" ∷ codes "dev" ∷ codes "QA" ∷ codes "RQA" ∷ codes "auto" ∷ codes "staging" ∷ []

-- `ResolveTokenName`
unfoldable pub resolve_token_name : Text → Text
resolve_token_name env =
    codes "config_token_" ++ (if mem_text env token_environments then env else codes "local")

-- The fields of a region, in the order in which they are visited.
unfoldable pub region_fields : Text → Fields → Fields
region_fields region [] = []
region_fields region ((field, v) ∷ d) =
    let rest = region_fields region d in if contains field region then (field, v) ∷ rest else rest

-- keeps the value that a field has, where it has one
abbrev pub keep : Text → Option Value → Fields → Fields
keep field none replaced = replaced
keep field (some v) replaced = assign field v replaced

-- The loop that keeps the base fields that a field of the region stands in for.
unfoldable pub base_fields : Text → Fields → Fields → Fields → Fields
base_fields region d [] replaced = replaced
base_fields region d ((field, v) ∷ rest) replaced =
    let base = trim_suffix field region in
    let kept = keep base (lookup base d) replaced in
    base_fields region d rest (if contains field region then kept else replaced)

-- The loop that puts the fields of the region in the place of the base fields.
unfoldable pub overlay_region : Text → Fields → Fields → Fields
overlay_region region [] d = d
overlay_region region ((field, v) ∷ rest) d =
    overlay_region region rest (assign (trim_suffix field region) v d)

abbrev pub default_of : Text → Value
default_of field =
    if text_eq field (codes "copied") || text_eq field (codes "deployed")
    then scalar (text (codes "false"))
    else scalar (text [])

abbrev pub value_or : Value → Option Value → Value
value_or v none = v
value_or v (some w) = w

-- The loop that makes the fields of a region that has none yet, with the base fields kept.
unfoldable pub region_defaults : Text → List Text → Fields × Fields → Fields × Fields
region_defaults region [] (d, replaced) = (d, replaced)
region_defaults region (field ∷ rest) (d, replaced) =
    let v = value_or (default_of field) (lookup field d) in
    region_defaults region rest (assign (field ++ region) v d, assign field v replaced)

abbrev pub default_fields : List Text
default_fields = codes "trcsha256" ∷ codes "copied" ∷ codes "deployed" ∷ codes "trcservicename" ∷ []

abbrev pub fill_region : Text → Fields → Fields → Fields × Fields
fill_region region d [] = region_defaults region default_fields (d, base_fields region d d [])
fill_region region d (f ∷ fs) = (overlay_region region (f ∷ fs) d, base_fields region d d [])

-- `strconv.ParseBool`, false for a text that it does not know
abbrev pub parse_bool : Text → Bool
parse_bool s =
    mem_text s (codes "1" ∷ codes "t" ∷ codes "T" ∷ codes "TRUE" ∷ codes "true" ∷ codes "True" ∷ [])

-- A flag that is a text becomes a Boolean; for a region, its value of now is kept.
abbrev pub convert_value : Text → Text → Option Value → Fields × Fields → Fields × Fields
convert_value region flag (some (scalar (text s))) (d, replaced) =
    let base = trim_suffix flag region in
    (
      assign flag (scalar (bool (parse_bool s))) d,
      if is_empty region then replaced else keep base (lookup base d) replaced,
    )
convert_value region flag _ (d, replaced) = (d, replaced)

unfoldable pub convert_flags : Text → List Text → Fields × Fields → Fields × Fields
convert_flags region [] (d, replaced) = (d, replaced)
convert_flags region (flag ∷ rest) (d, replaced) =
    convert_flags region rest (convert_value region flag (lookup flag d) (d, replaced))

abbrev pub flag_fields : List Text
flag_fields = codes "copied" ∷ codes "deployed" ∷ []

-- `GetPluginData` for a configuration that the data store holds: the values, and the base fields
-- that they stand in for
unfoldable pub get_plugin_data : Text → Fields → Fields × Fields
get_plugin_data [] d = convert_flags [] flag_fields (d, [])
get_plugin_data (c ∷ region) d =
    let suffix = codes "~" ++ c ∷ region in
    convert_flags suffix flag_fields (fill_region suffix d (region_fields suffix d))

abbrev pub put_back : Text → Text → Value → Option Value → Fields → Fields
put_back suffix field v none plugin = plugin
put_back suffix field v (some now) plugin = assign field v (assign (field ++ suffix) now plugin)

-- The loop that gives a replaced field its base value back and its value of now to the region.
unfoldable pub restore : Text → Fields → Fields → Fields
restore suffix [] plugin = plugin
restore suffix ((field, v) ∷ rest) plugin =
    restore suffix rest (put_back suffix field v (lookup field plugin) plugin)

-- The loop that writes the fields of a plugin over those that are stored.
unfoldable pub merge : Fields → Fields → Fields
merge d [] = d
merge d ((field, v) ∷ plugin) = merge (assign field v d) plugin

abbrev pub region_suffix : Text → Text
region_suffix region = if is_empty region then [] else codes "~" ++ region

abbrev or_new : Option Fields → Fields
or_new none = []
or_new (some d) = d

abbrev plugin_path : Text → Text
plugin_path name = codes "super-secrets/Index/TrcVault/trcplugin/" ++ name ++ codes "/Certify"

abbrev write_merged :
    Modifier → Vault → Text → Fields → Outcome (Option Fields) → Outcome (List Text)
write_merged m vault path plugin panicked = panicked
write_merged m vault path plugin (returned d (some e) n log) = returned [] (some e) n log
write_merged m vault path plugin (returned d none n log) =
    write_data m (λ k r. vault (n + k) r) path (merge (or_new d) plugin)

-- `WritePluginData`, with the warnings of the write, which the code drops
unfoldable pub write_plugin_data :
    Memory → Modifier → Vault → Fields → Fields → Text → Text → Outcome (List Text)
write_plugin_data memory m vault plugin replaced region name =
    let path = plugin_path name in
    let restored = restore (region_suffix region) replaced plugin in
    let (result, m') = read_data memory (record m { section_path = [] }) vault path in
    write_merged (record m' { section_path = [] }) vault path restored result
