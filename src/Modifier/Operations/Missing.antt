-- ===== src/Modifier/Operations/Missing.antt =====
-- Reads of metadata that is not there.
use tierceron.Base.{ℕ, suc, ◌≡◌, ◌↔◌, true, Option, none, List, ◌∷◌, ◌++◌, arith}
use tierceron.GoStrings.{Text, codes}
use tierceron.Modifier.{Modifier}
use tierceron.Modifier.Operations.{
  metadata_of, version_result, read_metadata, read_version_metadata,
}
use tierceron.Modifier.Paths.{read_metadata_path}
use tierceron.Modifier.Paths.Agreement.{
  IsSecretBucket, place, folder_path-place, version_metadata_path-place,
}
use tierceron.Modifier.Retry.{retryable, retry, notice}
use tierceron.Modifier.Vault.{Secret, Error, read, Vault, panicked}

metadata_of-panicked :
    (o : Option Secret) (err : Option Error) (n : ℕ) (log : List Text)
    → (metadata_of o err n log ≡ panicked) ↔ (o ≡ none)
metadata_of-panicked o err n log = ground arith

version_result-panicked :
    (o : Option Secret) (e : Option Error) (retries : ℕ)
    → (version_result (record { secret = o; err = e }) retries ≡ panicked)
      ↔ ((o ≡ none) × (retryable e ≡ true))
version_result-panicked o e retries = ground arith

-- For a path of a secret bucket, `ReadMetadata` panics exactly if the last reply holds no secret,
-- as for a path that is not in the vault, and `ReadVersionMetadata` exactly if the last reply holds
-- no secret and is an end of file or a timeout.
pub metadata-panicked :
    (m : Modifier) (vault : Vault) (bucket rest : Text)
    → IsSecretBucket bucket
    → let path = bucket ++ b'/' ∷ rest in
      let reply = (retry vault (read (place bucket (codes "data/") m.env rest))).0 in
      let version_reply = (retry vault (read (place bucket (codes "metadata/") m.env rest))).0 in
      ((read_metadata m vault path ≡ panicked) ↔ (reply.secret ≡ none))
      × ((read_version_metadata m vault path ≡ panicked)
          ↔ ((version_reply.secret ≡ none) × (retryable version_reply.err ≡ true)))
unfolding read_metadata read_version_metadata read_metadata_path
metadata-panicked m vault bucket rest h = (
  rw (folder_path-place m (codes "data/") bucket rest h) (
      let (reply, retries) = retry vault (read (place bucket (codes "data/") m.env rest)) in
      metadata_of-panicked reply.secret reply.err (suc retries)
        (notice (codes "modifier") reply.err retries)),
  rw (version_metadata_path-place m bucket rest h) (
      let (reply, retries) = retry vault (read (place bucket (codes "metadata/") m.env rest)) in
      version_result-panicked reply.secret reply.err retries),
)
