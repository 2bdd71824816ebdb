-- ===== src/SeedWrites.antt =====
-- SeedVaultFromData of pkg/trcinit/initlib/vault-seed.go: a seed file as the values that are written
-- at each path. The parse of YAML is a parameter: a file is a tree whose keys are texts.
pub mod Stack
pub mod Writes
pub mod Values
pub mod Lost
mod Examples
use tierceron.Base.{
  ℕ, zero, suc, ◌+◌, Bool, true, false, ◌&&◌, Option, none, some, List, [], ◌∷◌, ◌++◌,
  if◌then◌else◌,
}
use tierceron.GoStrings.{Text, codes, text_eq, is_empty}

mutual
  pub data Yaml : Type 0 where
    null : Yaml
    value : Text → Yaml
    branch : Entries → Yaml

  pub data Entries : Type 0 where
    no_entries : Entries
    entry : Text → Yaml → Entries → Entries

-- `writeCollection`
pub record Collection : Type 0 where
  pub path : Text
  pub fields : List (Text × Text)

-- whether the key holds the data for the verification, which is not written
abbrev pub is_verification : Text → Text → Bool
is_verification path key = is_empty path && text_eq key (codes "verification")

-- the path of a map inside another
unfoldable pub sub_path : Text → Text → Text
sub_path path key = if is_empty path then key else path ++ (codes "/" ++ key)

-- The values of a map. Data for the verification that is no map, at which the code panics, is left
-- out as well.
unfoldable pub leaves : Text → Entries → List (Text × Text)
leaves path no_entries = []
leaves path (entry key (value v) rest) =
    let later = leaves path rest in if is_verification path key then later else (key, v) ∷ later
leaves path (entry key _ rest) = leaves path rest

-- The maps inside a map, each of which is put in front of the stack.
unfoldable pub push : Text → Entries → List (Text × Entries) → List (Text × Entries)
unfolding sub_path
push path no_entries stack = stack
push path (entry key (branch below) rest) stack =
    push path rest (if is_verification path key then stack else (sub_path path key, below) ∷ stack)
push path (entry key _ rest) stack = push path rest stack

-- what is written of a map: nothing where it has no values
abbrev pub collected : Text → List (Text × Text) → List Collection
collected path [] = []
collected path (field ∷ fields) = record { path = path; fields = field ∷ fields } ∷ []

abbrev pub in_front : List Collection → Option (List Collection) → Option (List Collection)
in_front xs none = none
in_front xs (some ys) = some (xs ++ ys)

-- The loop over the stack; `none` is out of fuel.
unfoldable pub write_stack : ℕ → List (Text × Entries) → Option (List Collection)
unfolding leaves push
write_stack zero stack = none
write_stack (suc fuel) [] = some []
write_stack (suc fuel) ((path, entries) ∷ stack) =
    in_front (collected path (leaves path entries)) (write_stack fuel (push path entries stack))

-- the number of maps in a map
unfoldable pub maps_in : Entries → ℕ
maps_in no_entries = 0
maps_in (entry key (branch below) rest) = suc (maps_in below + maps_in rest)
maps_in (entry key _ rest) = maps_in rest

-- the values of a seed file that are to be written, with one round for each map
unfoldable pub collections : Entries → Option (List Collection)
unfolding write_stack maps_in
collections root = write_stack (suc (suc (maps_in root))) (([], root) ∷ [])
