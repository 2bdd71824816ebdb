-- ===== src/SeedFields/Examples.antt =====
-- A seed file with one section of secrets and one of values, and a cipher that puts an `x` in front.
use tierceron.Base.{◌≡◌, refl, Option, none, some, List, [], ◌∷◌}
use tierceron.GoStrings.{Text, codes, text_eq, split, contains}
use tierceron.SeedFields.{
  Seed, field_reader, field_replacer, printed, field_value, has_field, field_validator,
  validate_fields,
}
use tierceron.SeedFields.Prompt.{
  prompted, prompt_user_for_fields, prompt_fields, prompt_encrypted, put,
}
use tierceron.SeedFields.ReadBack.{
  Entry, names, encrypted_map, plain_lines, field_reader-field_replacer,
}

abbrev seed_file : Seed
seed_file = record {
  secrets =
      (
        codes "Db",
        (codes "password", codes "old")
            ∷ (codes "salt", codes "s")
            ∷ (codes "user", codes "u")
            ∷ [],
      )
      ∷ [];
  values = (codes "Web", (codes "key", codes "k") ∷ []) ∷ [];
}

abbrev unmark : Text → Option Text
unmark [] = none
unmark (c ∷ s) = some s

abbrev entries : List Entry
entries =
    record { field = codes "password"; plain = codes "p1"; cipher = codes "xp1" }
    ∷ record { field = codes "key"; plain = codes "k1"; cipher = codes "xk1" }
    ∷ []

field_reader-field_replacer_example :
    field_reader unmark
      (names entries)
      (field_replacer ((codes "user", codes "v") ∷ []) (encrypted_map entries) seed_file)
    ≡ printed (plain_lines entries seed_file)
unfolding text_eq has_field field_value
field_reader-field_replacer_example =
    field_reader-field_replacer unmark ((codes "user", codes "v") ∷ []) entries seed_file
      ((refl, tt), (tt, tt)) (refl, (refl, tt)) (refl, (refl, tt))

missing_field :
    field_validator (codes "port") seed_file
    ≡ some (codes "This field does not exist in this seed file: port")
unfolding field_validator validate_fields has_field field_value split text_eq
missing_field = refl

-- The field `pass` is not asked for, since its name stands in that of an encrypted field.
never_asked :
    prompt_user_for_fields
      (λ s iv x. some (b'x' ∷ x))
      (some (codes "s", codes "i"))
      (codes "pass")
      (codes "password")
      (codes "p" ∷ codes "p" ∷ [])
    ≡ prompted [] (
        (codes "password", codes "xp")
        ∷ (codes "salt", codes "s")
        ∷ (codes "initial_value", codes "i")
        ∷ [])
unfolding prompt_user_for_fields prompt_fields prompt_encrypted put contains split text_eq
never_asked = refl
