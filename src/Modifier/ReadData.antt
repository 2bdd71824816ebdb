-- ===== src/Modifier/ReadData.antt =====
-- `ReadData`, `ReadMapValue` and `ReadValue`: the version that is asked for, the retries, and what
-- is made of the secret that comes back.
pub mod Versions
pub mod Locked
use tierceron.Base.{
  ℕ, zero, suc, ◌+◌, Bool, true, false, not, ◌&&◌, Option, none, some, List, [], ◌∷◌, ◌++◌,
  if◌then◌else◌,
}
use tierceron.GoStrings.{Text, codes, text_eq, is_empty, has_prefix, has_suffix, contains, split}
use tierceron.Modifier.{Modifier}
use tierceron.Modifier.Paths.{read_data_path, section_or_path}
use tierceron.Modifier.Vault.{
  Scalar, text, bool, int64, int, number, stringer, null, unsupported, Value, scalar, items, Fields,
  Part, absent, fields, other, Secret, Error, failure, Reply, Request, read, read_version, Vault,
  Outcome, returned, panicked, lookup, assign,
}

abbrev pub x_mode : Text
x_mode = codes "***X-Mode"

abbrev head_or_empty : List Text → Text
head_or_empty [] = []
head_or_empty (p ∷ ps) = p

-- The request of one attempt, if there is one, and the modifier after it.
unfoldable pub read_query : Modifier → Text → Text → Option Request × Modifier
read_query m path full =
    let version = head_or_empty (split m.version (codes "***")) in
    let given = not (is_empty m.version) in
    let templates = has_prefix path (codes "templates") in
    if has_suffix m.version x_mode
    then if given && (not (text_eq m.version (codes "0")) && templates)
      then (some (read_version full version), record m { version = version })
      else (none, m)
    else if given && not templates
    then (some (read_version full m.version), m)
    else (some (read full), m)

abbrev answer : Vault → ℕ → Option Request → Reply × ℕ
answer vault n none = (record { secret = none; err = none }, n)
answer vault n (some request) = (vault n request, suc n)

abbrev is_error : Option Error → Bool
is_error none = false
is_error (some e) = true

-- The loop with `left` retries left, after `n` requests: any error is tried again.
unfoldable pub read_loop : Vault → Text → Text → ℕ → ℕ → Modifier → Reply × ℕ × Modifier
unfolding read_query
read_loop vault path full zero n m =
    let (request, m') = read_query m path full in
    let (reply, n') = answer vault n request in (reply, n', m')
read_loop vault path full (suc left) n m =
    let (request, m') = read_query m path full in
    let (reply, n') = answer vault n request in
    let again = read_loop vault path full left n' m' in
    if is_error reply.err then again else (reply, n', m')

abbrev or_null : Option Value → Value
or_null none = scalar null
or_null (some v) = v

abbrev created_time : Part → Fields → Fields
created_time (fields f) d =
    assign (codes "lastTestedDate") (or_null (lookup (codes "created_time") f)) d
created_time absent d = d
created_time other d = d

abbrev is_empty_text : Option Value → Bool
is_empty_text (some (scalar (text s))) = is_empty s
is_empty_text _ = false

-- an empty `lastTestedDate` is replaced by the time of creation
unfoldable pub fix_tested_date : Part → Fields → Fields
unfolding lookup assign
fix_tested_date metadata d =
    if is_empty_text (lookup (codes "lastTestedDate") d) then created_time metadata d else d

-- the part of the path behind the first part `argosId`; `none` is an index out of range
abbrev next_part : List Text → Fields → Option Fields
next_part [] d = none
next_part (p ∷ ps) d = some (assign (codes "argosId") (scalar (text p)) d)

unfoldable pub argos_from : List Text → Fields → Option Fields
unfolding text_eq
argos_from [] d = some d
argos_from (p ∷ ps) d =
    let later = argos_from ps d in if text_eq p (codes "argosId") then next_part ps d else later

abbrev is_missing : Option Value → Bool
is_missing none = true
is_missing (some v) = false

-- a missing `argosId` is taken from the path
unfoldable pub fix_argos_id : Text → Fields → Option Fields
unfolding contains lookup split argos_from
fix_argos_id full d =
    if contains full (codes "argosId") && is_missing (lookup (codes "argosId") d)
    then argos_from (split full (codes "/")) d
    else some d

-- The types that may stay in memory that is locked where it can be.
abbrev pub lockable : Scalar → Bool
lockable (text s) = true
lockable (bool b) = true
lockable (int64 i) = true
lockable (int i) = true
lockable (number s) = true
lockable (stringer s) = false
lockable null = false
lockable unsupported = false

abbrev pub all_lockable : List Scalar → Bool
all_lockable [] = true
all_lockable (s ∷ ss) = lockable s && all_lockable ss

abbrev pub value_lockable : Value → Bool
value_lockable (scalar s) = lockable s
value_lockable (items ss) = all_lockable ss

-- The loop over the data of a process that keeps secrets in locked memory; `check` is
-- `CheckMemLock` of the build, for the bucket of the path.
unfoldable pub fields_lockable : (Text → Bool) → Fields → Bool
fields_lockable check [] = true
fields_lockable check ((key, v) ∷ d) =
    (if check key then value_lockable v else true) && fields_lockable check d

-- The parameters of the build: whether secrets are kept in locked memory, and `CheckMemLock`.
pub record Memory : Type 0 where
  pub memonly : Bool
  pub check : Text → Text → Bool

abbrev fail : Text → ℕ → Outcome (Option Fields)
fail message requests = returned none (some (failure message)) requests []

abbrev pub finish_fields :
    Memory → Text → Text → Option Error → ℕ → Option Fields → Outcome (Option Fields)
finish_fields memory bucket path err requests none = panicked
finish_fields memory bucket path err requests (some d) =
    let locked = memory.memonly && not (has_prefix path (codes "templates")) in
    if locked && not (fields_lockable (memory.check bucket) d)
    then fail (codes "unexpected datatype. Refusing to read what we cannot lock.") requests
    else if is_empty d
    then fail
        (codes
          "could not get data from vault.  Provided token may lack permission to access provided path")
        requests
    else returned (some d) err requests []

abbrev finish_part :
    Memory → Text → Text → Text → Secret → Option Error → ℕ → Part → Outcome (Option Fields)
finish_part memory bucket path full secret err requests absent =
    fail (codes "could not get data from vault response") requests
finish_part memory bucket path full secret err requests other =
    fail (codes "could not get data from vault response") requests
finish_part memory bucket path full secret err requests (fields d) =
    finish_fields memory bucket path err requests
      (fix_argos_id full (fix_tested_date secret.metadata_part d))

-- what is made of the last reply
unfoldable pub finish_read : Memory → Text → Text → Text → Reply → ℕ → Outcome (Option Fields)
unfolding fix_tested_date fix_argos_id fields_lockable has_prefix
finish_read memory bucket path full reply requests = elim reply.secret [
  | none ↦ returned none reply.err requests []
  | some secret ↦ finish_part memory bucket path full secret reply.err requests secret.data_part
]

-- `ReadData`, with the modifier after it
unfoldable pub read_data : Memory → Modifier → Vault → Text → Outcome (Option Fields) × Modifier
unfolding section_or_path read_data_path read_loop finish_read
read_data memory m vault bucket =
    let path = section_or_path m bucket in
    let full = read_data_path m path in
    let (reply, requests, m') = read_loop vault path full 7 0 m in
    (finish_read memory bucket path full reply requests, m')

-- `ReadMapValue`; `none` is an error.
abbrev pub value_text : Option Value → Option Text
value_text (some (scalar (text s))) = some s
value_text (some (scalar (stringer s))) = some s
value_text (some (scalar (number s))) = some s
value_text _ = none

unfoldable pub read_map_value : Fields → Text → Option Text
unfolding lookup
read_map_value d key = value_text (lookup key d)

abbrev fields_or_empty : Option Fields → Fields
fields_or_empty none = []
fields_or_empty (some d) = d

abbrev value_at : Outcome (Option Fields) → Text → Outcome (Option Text)
value_at panicked key = panicked
value_at (returned d (some e) n log) key = returned none (some e) n log
value_at (returned d none n log) key = returned (read_map_value (fields_or_empty d) key) none n log

-- `ReadValue`, where a value that is `none` stands for the error of `ReadMapValue`
unfoldable pub read_value :
    Memory → Modifier → Vault → Text → Text → Outcome (Option Text) × Modifier
unfolding read_data read_map_value
read_value memory m vault path key =
    let (result, m') = read_data memory m vault path in (value_at result key, m')
