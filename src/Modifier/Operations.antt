-- ===== src/Modifier/Operations.antt =====
-- The operations of the `Modifier` on the vault, but `ReadData`.
pub mod Missing
use tierceron.Base.{
  ℕ, zero, suc, ◌+◌, Bool, true, false, Option, none, some, List, [], ◌∷◌, ◌++◌, if◌then◌else◌,
}
use tierceron.GoStrings.{Text, codes}
use tierceron.Modifier.{Modifier}
use tierceron.Modifier.Paths.{
  write_path, read_metadata_path, version_metadata_path, list_path, list_env_path, delete_data_path,
  delete_metadata_path,
}
use tierceron.Modifier.Retry.{retryable, Asked, retry, notice}
use tierceron.Modifier.Vault.{
  Fields, Part, absent, fields, other, Secret, Error, eof, timeout, failure, Reply, Request, write,
  read, list, delete, Vault, Outcome, returned, panicked,
}

abbrev pub warnings_of : Option Secret → List Text
warnings_of none = []
warnings_of (some s) = s.warnings

-- `Write`
unfoldable pub write_data : Modifier → Vault → Text → Fields → Outcome (List Text)
unfolding write_path retry
write_data m vault path content =
    let (reply, retries) = retry vault (write (write_path m path) content) in
    returned (warnings_of reply.secret) reply.err (suc retries)
      (notice (codes "Modifier") reply.err retries)

abbrev error_text : Option Error → List Text
error_text none = []
error_text (some eof) = codes "EOF" ∷ []
error_text (some timeout) = codes "context deadline exceeded" ∷ []
error_text (some (failure s)) = s ∷ []

-- `List`
unfoldable pub list_secrets : Modifier → Vault → Text → Outcome (Option Secret)
unfolding list_path retry
list_secrets m vault path =
    let (reply, retries) = retry vault (list (list_path m path)) in
    returned reply.secret reply.err (suc retries)
      (notice (codes "Modifier") reply.err retries ++ error_text reply.err)

-- `ListEnv`
unfoldable pub list_env : Vault → Text → Outcome (Option Secret)
unfolding list_env_path retry
list_env vault path =
    let (reply, retries) = retry vault (list (list_env_path path)) in
    returned reply.secret reply.err (suc retries) (notice (codes "Modifier") reply.err retries)

abbrev pub map_of : Part → Text → Option Error → ℕ → List Text → Outcome (Option Fields)
map_of absent message err requests log = returned none (some (failure message)) requests log
map_of other message err requests log = returned none (some (failure message)) requests log
map_of (fields f) message err requests log = returned (some f) err requests log

abbrev metadata_of : Option Secret → Option Error → ℕ → List Text → Outcome (Option Fields)
metadata_of none err requests log = panicked
metadata_of (some s) err requests log =
    map_of s.metadata_part (codes "could not get metadata from vault response") err requests log

abbrev read_metadata_at : Vault → Option Text → Outcome (Option Fields)
read_metadata_at vault none = panicked
read_metadata_at vault (some path) =
    let (reply, retries) = retry vault (read path) in
    metadata_of reply.secret reply.err (suc retries) (notice (codes "modifier") reply.err retries)

-- `ReadMetadata`, which uses the secret without a test that there is one
unfoldable pub read_metadata : Modifier → Vault → Text → Outcome (Option Fields)
unfolding read_metadata_path retry
read_metadata m vault path = read_metadata_at vault (read_metadata_path m path)

abbrev no_versions : Option Secret → Bool
no_versions none = true
no_versions (some s) = elim s.versions_part [ absent ↦ true | _ ↦ false ]

abbrev versions_of : Option Secret → Option Error → ℕ → List Text → Outcome (Option Fields)
versions_of none err requests log = panicked
versions_of (some s) err requests log =
    map_of s.versions_part (codes "could not get metadata of versions from vault response") err
      requests log

-- what is made of the last reply, after so many retries
abbrev pub version_result : Reply → ℕ → Outcome (Option Fields)
version_result reply retries =
    let log = notice (codes "Modifier") reply.err retries in
    let found = versions_of reply.secret reply.err (suc retries) log in
    let missing = returned none (some (failure (codes "no version data"))) (suc retries) [] in
    if retryable reply.err then found else if no_versions reply.secret then missing else found

-- `ReadVersionMetadata`: that there is a secret is tested only where the error is not one that is
-- tried again.
unfoldable pub read_version_metadata : Modifier → Vault → Text → Outcome (Option Fields)
unfolding version_metadata_path retry
read_version_metadata m vault path =
    let (reply, retries) = retry vault (read (version_metadata_path m path)) in
    version_result reply retries

abbrev pub no_metadata : Option Error
no_metadata = some (failure (codes "could not get metadata from vault response"))

-- `secret == nil && err == nil`
abbrev pub gone : Reply → Bool
gone reply = elim reply.secret [
  | none ↦ elim reply.err [ none ↦ true | some e ↦ false ]
  | some s ↦ false
]

abbrev soft_delete_at : Vault → Option Text → Outcome Unit
soft_delete_at vault none = panicked
soft_delete_at vault (some path) =
    let (reply, retries) = retry vault (delete path) in
    let log = notice (codes "Modifier") reply.err retries in
    if gone reply
    then returned tt none (suc retries) log
    else returned tt no_metadata (suc retries) log

-- `SoftDelete`
unfoldable pub soft_delete : Modifier → Vault → Text → Outcome Unit
unfolding delete_data_path retry
soft_delete m vault path = soft_delete_at vault (delete_data_path m path)
