-- ===== src/SeedFields/Prompt.antt =====
-- `PromptUserForFields` of pkg/trcx/xencrypt/xencrypt.go. The answers are a list, one for each
-- prompt, and a prompt behind the last answer reads an empty text. The cipher and the source of
-- its parameters are arguments.
use tierceron.Base.{not, Option, none, some, List, [], ◌∷◌, ◌++◌, if◌then◌else◌}
use tierceron.GoStrings.{Text, codes, text_eq, split, contains}
use tierceron.SeedFields.{Section}

-- `m[field] = v`
unfoldable pub put : Text → Text → Section → Section
put field new [] = (field, new) ∷ []
put field new ((name, v) ∷ rest) =
    let later = put field new rest in
    if text_eq name field then (name, new) ∷ rest else (name, v) ∷ later

-- The two maps, or the error.
pub data Prompted : Type 0 where
  prompted : (fields encrypted : Section) → Prompted
  refused : Text → Prompted

abbrev next : List Text → Text × List Text
next [] = ([], [])
next (a ∷ answers) = (a, answers)

-- The loop over the fields in plain text: one that stands anywhere in the text of the encrypted
-- fields is passed over.
unfoldable pub prompt_fields : Text → List Text → List Text → Section → Section × List Text
prompt_fields encrypted [] answers found = (found, answers)
prompt_fields encrypted (field ∷ rest) answers found =
    let (input, later) = next answers in
    let skipped = prompt_fields encrypted rest answers found in
    let asked = prompt_fields encrypted rest later (put field input found) in
    if not (contains encrypted field) then asked else skipped

-- a field with its encrypted input, in front of the loop over the rest
abbrev with_encrypted : Text → Option Text → Section → (Section → Prompted) → Prompted
with_encrypted field none found k = refused (codes "encryption")
with_encrypted field (some c) found k = k (put field c found)

abbrev no_match : Text → Text
no_match field = codes "Entered values for '" ++ (field ++ codes "' do not match, exiting...")

-- The loop over the encrypted fields, each of which is asked for twice; what follows it is given.
unfoldable pub prompt_encrypted :
    (Text → Option Text) → List Text → List Text → Section → (Section → Prompted) → Prompted
prompt_encrypted encrypt [] answers found k = k found
prompt_encrypted encrypt (field ∷ rest) answers found k =
    let (input, once) = next answers in
    let (again, twice) = next once in
    if not (text_eq again input)
    then refused (no_match field)
    else with_encrypted field (encrypt input) found
        (λ more. prompt_encrypted encrypt rest twice more k)

abbrev with_parameters : Text → Text → Section → Section → Prompted
with_parameters salt iv fields found =
    prompted fields (put (codes "initial_value") iv (put (codes "salt") salt found))

abbrev with_cipher :
    (Text → Text → Text → Option Text)
    → Text
    → Section × List Text
    → Option (Text × Text)
    → Prompted
with_cipher encrypt encrypted (fields, answers) none = refused (codes "new encryption")
with_cipher encrypt encrypted (fields, answers) (some (salt, iv)) =
    prompt_encrypted (encrypt salt iv) (split encrypted (codes ",")) answers []
      (with_parameters salt iv fields)

-- `PromptUserForFields`; `make` is `MakeNewEncryption`, and `encrypt` takes the salt and the initial
-- value that it makes.
unfoldable pub prompt_user_for_fields :
    (encrypt : Text → Text → Text → Option Text) (make : Option (Text × Text))
    → (fields encrypted : Text) (answers : List Text) → Prompted
prompt_user_for_fields encrypt make fields encrypted answers =
    with_cipher encrypt encrypted (prompt_fields encrypted (split fields (codes ",")) answers [])
      make
