-- ===== src/SeedSections.antt =====
-- pkg/trcx/extract/xparser.go: how the lines of a template become sections of a seed file. The
-- parser of templates is a parameter: a template is the list of the arguments of its actions.
pub mod Structure
pub mod Kept
pub mod Templates
pub mod Expected
pub mod Chosen
pub mod Merge
pub mod Merged
mod Examples
use tierceron.Base.{
  ℕ, suc, ◌+◌, ◌-◌, Bool, true, false, not, ◌&&◌, ◌||◌, ltb, leb, ◌==◌, Option, none, some, List,
  [], ◌∷◌, ◌++◌, length, get_elem?, if◌then◌else◌, drop, take,
}
use tierceron.ConfigStore.{ConfigDataStore, get_value}
use tierceron.ConfigStore.Links.{Result, done, refused, panicked, ◌>>=◌}
use tierceron.GoMaps.{Map, fetch, store}
use tierceron.GoStrings.{Text, codes, text_eq, is_empty, contains, replace_all}
use tierceron.SeedSections.Structure.{Branches, append_to_template_section}

abbrev pub Sections : Type 0
Sections = Map (Map (Map Text))

-- What the lines of the templates add to: the nested section, and those of values and of secrets.
pub record Seeds : Type 0 where
  pub nested : Branches
  pub values : Sections
  pub secrets : Sections

-- Where a template stands: the parts of its path, the index of the templates' folder there, and
-- the service.
pub record Place : Type 0 where
  pub parts : List Text
  pub dir : ℕ
  pub service : Text

abbrev pub default_secret : Text
default_secret = codes "<Enter Secret Here>"

abbrev pub inner : {A : Type 0} → Option (Map A) → Map A
inner none = []
inner (some m) = m

-- `(*sectionMap)[sectionType][service]`
unfoldable pub service_section : Text → Text → Sections → Option (Map Text)
service_section kind service sections = fetch service (inner (fetch kind sections))

-- what the store holds for the key; `none` where there is no store, or no value in it
abbrev pub store_value : Option ConfigDataStore → Text → List Text → Text → Option Text
store_value none service path key = none
store_value (some cds) service path key = get_value cds service path key

-- what is asked of the store: nothing for the data of a certificate
unfoldable pub vault_value : Option ConfigDataStore → Text → List Text → Text → Option Text
vault_value cds service path key =
    if text_eq key (codes "certData") then none else store_value cds service path key

abbrev pub or_value : Text → Option Text → Text
or_value value none = value
or_value value (some v) = v

-- the value to be set
unfoldable pub proposed : Text → Text → Option Text → Text
proposed key value from_store =
    if text_eq key (codes "certData") then codes "data" else or_value value from_store

abbrev pub is_some : Option Text → Bool
is_some none = false
is_some (some v) = true

-- whether a value that stands in the section may be set again
unfoldable pub may_set : Option Text → Bool
may_set none = true
may_set (some v) = text_eq v default_secret || is_empty v

abbrev pub replace_section :
    Text → Text → Map Text → Sections → Option (Map (Map Text)) → Result Sections
replace_section kind service section sections none = panicked
replace_section kind service section sections (some services) =
    done (store kind (store service section services) sections)

-- a key of a service that has a section, or has none
abbrev pub set_key : Text → Text → Text → Text → Sections → Option (Map Text) → Result Sections
set_key kind service key value sections none =
    replace_section kind service ((key, value) ∷ []) sections (fetch kind sections)
set_key kind service key value sections (some section) =
    if may_set (fetch key section)
    then replace_section kind service (store key value section) sections (fetch kind sections)
    else done sections

-- `parseAndSetSection`, which all callers give the default secret
unfoldable pub parse_and_set_section :
    Option ConfigDataStore → Sections → Text → Text → List Text → Text → Text → Result Sections
unfolding service_section vault_value proposed may_set
parse_and_set_section cds sections kind service path key value =
    let section = service_section kind service sections in
    let present = is_some (fetch key (inner section)) in
    let from_store = vault_value cds service path key in
    let set = set_key kind service key (proposed key value from_store) sections section in
    if contains key (codes "~") && not (present || is_some from_store) then done sections else set

-- the loop over the regions of the store
unfoldable pub set_regions :
    Option ConfigDataStore
    → Text
    → Text
    → List Text
    → Text
    → Text
    → List Text
    → Sections
    → Result Sections
unfolding parse_and_set_section
set_regions cds kind service path key value [] sections = done sections
set_regions cds kind service path key value (region ∷ rest) sections =
    parse_and_set_section cds sections kind service path (key ++ (codes "~" ++ region)) value
    >>= set_regions cds kind service path key value rest

abbrev pub regions_of : Option ConfigDataStore → List Text
regions_of none = []
regions_of (some cds) = cds.regions

-- a key, and then its regions
unfoldable pub set_all :
    Option ConfigDataStore → Text → Text → List Text → Text → Text → Sections → Result Sections
unfolding set_regions parse_and_set_section
set_all cds kind service path key value sections =
    parse_and_set_section cds sections kind service path key value
    >>= set_regions cds kind service path key value (regions_of cds)

-- `s[1:]`; `none` is a panic.
abbrev pub tail : Text → Option Text
tail [] = none
tail (c ∷ s) = some s

-- a value without its quotes
unfoldable pub unquoted : Text → Text
unquoted [] = []
unquoted (c ∷ []) = c ∷ []
unquoted (c ∷ d ∷ s) = take (length s) (d ∷ s)

-- the parts of the path of a value's file; `none` is an index out of range
unfoldable pub value_file_path : Place → Option (List Text)
value_file_path p = elim (get_elem? p.parts (suc p.dir)) [
  | none ↦ none
  | some project ↦
      let from = p.dir + (if text_eq project (codes "Common") then 2 else 3) in
      if leb from (length p.parts) then some (drop from p.parts) else none
]

-- the parts of the path of a secret's file, the last one at least
unfoldable pub secret_file_path : Place → Option (List Text)
secret_file_path p =
    if is_empty p.parts
    then none
    else let from = p.dir + 3 in
      let last = length p.parts - 1 in some (drop (if ltb last from then last else from) p.parts)

abbrev pub with_values : Seeds → Branches → Result Sections → Result Seeds
with_values s nested set = set >>= λ m. done record s { nested = nested; values = m }

abbrev pub with_secrets : Seeds → Branches → Result Sections → Result Seeds
with_secrets s nested set = set >>= λ m. done record s { nested = nested; secrets = m }

abbrev pub parse_value :
    Option ConfigDataStore → Place → Seeds → Text → Option Text → Option (List Text) → Result Seeds
parse_value cds p s value (some key) (some path) =
    with_values s (append_to_template_section p.parts p.dir false key p.service s.nested)
      (set_all cds (codes "values") p.service path key (unquoted value) s.values)
parse_value cds p s value _ _ = panicked

abbrev pub secret_default : Text → Text
secret_default key = if text_eq key (codes "certData") then codes "data" else default_secret

abbrev pub parse_secret :
    Option ConfigDataStore → Place → Seeds → Option Text → Option (List Text) → Result Seeds
parse_secret cds p s (some key) (some path) =
    with_secrets s (append_to_template_section p.parts p.dir true key p.service s.nested)
      (set_all cds (codes "super-secrets") p.service path key (secret_default key) s.secrets)
parse_secret cds p s _ _ = panicked

-- `Parse`: the message for another number of arguments takes the path behind the templates' folder
unfoldable pub parse : Option ConfigDataStore → Place → List Text → Seeds → Result Seeds
unfolding set_all value_file_path secret_file_path unquoted append_to_template_section
parse cds p (_ ∷ key ∷ value ∷ []) s = parse_value cds p s value (tail key) (value_file_path p)
parse cds p (key ∷ []) s = parse_secret cds p s (tail key) (secret_file_path p)
parse cds p _ s =
    if leb (p.dir + 3) (length p.parts)
    then refused (codes "Incorrect template element count")
    else panicked

-- the arguments of an action as they are parsed; `none` is the error of one that holds a tilde. An
-- escaped quote (92, 34) is a quote.
unfoldable pub arguments : List Text → Option (List Text)
arguments [] = some []
arguments (arg ∷ rest) =
    let name = replace_all arg (92 ∷ 34 ∷ []) (34 ∷ []) in
    let later = arguments rest in
    if contains name (codes "~")
    then none
    else elim later [ none ↦ none | some names ↦ some (name ∷ names) ]

abbrev pub parse_action : Option ConfigDataStore → Place → Option (List Text) → Seeds → Result Seeds
parse_action cds p none s = refused (codes "Unsupported parameter name character ~")
parse_action cds p (some args) s = parse cds p args s

-- the loop of `ToSeed` over the actions of a template
unfoldable pub to_seed : Option ConfigDataStore → Place → List (List Text) → Seeds → Result Seeds
unfolding parse arguments
to_seed cds p [] s = done s
to_seed cds p (action ∷ rest) s = parse_action cds p (arguments action) s >>= to_seed cds p rest
