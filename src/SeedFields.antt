-- ===== src/SeedFields.antt =====
-- pkg/trcx/xencrypt/xencrypt.go: the fields of a seed file that are encrypted. The cipher is a
-- parameter, and a seed file is its sections of secrets and of values, in the order of the visit.
pub mod Shown
pub mod ReadBack
pub mod Prompt
mod Examples
use tierceron.Base.{
  ℕ, ◌≡◌, Bool, true, false, not, ◌&&◌, ◌||◌, Option, none, some, List, [], ◌∷◌, ◌++◌, map,
  if◌then◌else◌,
}
use tierceron.GoStrings.{Text, codes, text_eq, is_empty, split, contains}
use tierceron.GoStrings.Equality.{mem_text}

abbrev pub Section : Type 0
Section = List (Text × Text)

-- `secSection["super-secrets"]` and `valSection["values"]`
pub record Seed : Type 0 where
  pub secrets : List (Text × Section)
  pub values : List (Text × Section)

-- `section[field]`
unfoldable pub field_value : Text → Section → Option Text
field_value field [] = none
field_value field ((name, v) ∷ rest) =
    let later = field_value field rest in if text_eq name field then some v else later

-- sets a field that a section has, and leaves other sections as they are
unfoldable pub set_field : Text → Text → Section → Section
set_field field new [] = []
set_field field new ((name, v) ∷ rest) =
    let later = set_field field new rest in
    if text_eq name field then (name, new) ∷ rest else (name, v) ∷ later

abbrev pub is_some : Option Text → Bool
is_some none = false
is_some (some v) = true

-- whether one of the sections has the field
unfoldable pub has_field : Text → List (Text × Section) → Bool
has_field field [] = false
has_field field ((name, section) ∷ rest) =
    is_some (field_value field section) || has_field field rest

-- The loop over the fields; the error names the first that is in no section.
unfoldable pub validate_fields : List Text → Seed → Option Text
validate_fields [] seed = none
validate_fields (field ∷ rest) seed =
    let later = validate_fields rest seed in
    if has_field field seed.secrets || has_field field seed.values
    then later
    else some (codes "This field does not exist in this seed file: " ++ field)

-- `FieldValidator`
unfoldable pub field_validator : Text → Seed → Option Text
field_validator fields seed = validate_fields (split fields (codes ",")) seed

abbrev pub or_found : Option Text → Option Text → Option Text
or_found found none = found
or_found found (some v) = if is_empty v then found else some v

-- The loop over the sections for one of the two parameters of the cipher: the last that is not
-- empty is taken.
unfoldable pub encryptor : Text → List (Text × Section) → Option Text → Option Text
encryptor name [] found = found
encryptor name ((_, section) ∷ rest) found =
    encryptor name rest (or_found found (field_value name section))

abbrev pub both : Option Text → Option Text → Option (Text × Text)
both (some salt) (some iv) = some (salt, iv)
both _ _ = none

-- `GetEncryptors`: the salt and the initial value, where `none` is an error
unfoldable pub get_encryptors : Seed → Option (Text × Text)
get_encryptors seed =
    both (encryptor (codes "salt") seed.secrets none)
      (encryptor (codes "initial_value") seed.secrets none)

unfoldable pub distinct : List Text → List Text
distinct [] = []
distinct (field ∷ rest) =
    let later = distinct rest in if mem_text field rest then later else field ∷ later

-- `CreateEncryptedReadMap`: the keys of the map
unfoldable pub create_encrypted_read_map : Text → List Text
create_encrypted_read_map keys = distinct (split keys (codes ","))

-- What is printed, with the error at the end of it where there is one.
pub data Printed : Type 0 where
  printed : List Text → Printed
  failed : List Text → Text → Printed

-- what is printed before something else
abbrev pub before : Text → Printed → Printed
before line (printed lines) = printed (line ∷ lines)
before line (failed lines err) = failed (line ∷ lines) err

abbrev pub followed : Printed → Printed → Printed
followed (failed lines err) next = failed lines err
followed (printed lines) (printed more) = printed (lines ++ more)
followed (printed lines) (failed more err) = failed (lines ++ more) err

abbrev pub field_line : Text → Text → Text
field_line field v = codes "field: " ++ (field ++ (codes " value: " ++ (v ++ codes " \n")))

abbrev pub decrypted : Text → Option Text → Printed → Printed
decrypted field none rest = failed [] (codes "decryption")
decrypted field (some v) rest = before (field_line field v) rest

abbrev pub read_section : (Text → Option Text) → Text → Option Text → Printed → Printed
read_section decrypt field none rest = rest
read_section decrypt field (some v) rest = decrypted field (decrypt v) rest

-- The loop over the sections for one field.
unfoldable pub read_sections : (Text → Option Text) → Text → List (Text × Section) → Printed
read_sections decrypt field [] = printed []
read_sections decrypt field ((name, section) ∷ rest) =
    read_section decrypt field (field_value field section) (read_sections decrypt field rest)

-- one field: the secrets, and the values only where no section of the secrets has it
unfoldable pub read_field : (Text → Option Text) → Text → Seed → Printed
read_field decrypt field seed =
    if has_field field seed.secrets
    then read_sections decrypt field seed.secrets
    else if has_field field seed.values
    then read_sections decrypt field seed.values
    else failed [] (codes "Could not find encrypted field inside seed file.")

-- `FieldReader`
unfoldable pub field_reader : (Text → Option Text) → List Text → Seed → Printed
field_reader decrypt [] seed = printed []
field_reader decrypt (field ∷ rest) seed =
    followed (read_field decrypt field seed) (field_reader decrypt rest seed)

unfoldable pub replace_sections : Text → Text → List (Text × Section) → List (Text × Section)
replace_sections field new [] = []
replace_sections field new ((name, section) ∷ rest) =
    (name, set_field field new section) ∷ replace_sections field new rest

-- one field: in the secrets, and in the values only where no section of the secrets has it
unfoldable pub replace_field : Text → Text → Seed → Seed
replace_field field new seed =
    if has_field field seed.secrets
    then record seed { secrets = replace_sections field new seed.secrets }
    else record seed { values = replace_sections field new seed.values }

-- the loop over a map of new values
unfoldable pub replace_fields : List (Text × Text) → Seed → Seed
replace_fields [] seed = seed
replace_fields ((field, new) ∷ rest) seed = replace_fields rest (replace_field field new seed)

-- `FieldReplacer`: the fields in plain text, and then the encrypted ones
unfoldable pub field_replacer : List (Text × Text) → List (Text × Text) → Seed → Seed
field_replacer fields encrypted seed = replace_fields encrypted (replace_fields fields seed)
