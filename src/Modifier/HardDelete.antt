-- ===== src/Modifier/HardDelete.antt =====
-- `HardDelete`: the data of a path is deleted, and then its metadata. A retry of either starts
-- again with the data, and both share the three retries.
use tierceron.Base.{
  ℕ, zero, suc, ◌+◌, ◌*◌, ◌<◌, ◌≤◌, ◌≡◌, ◌≢◌, ◌⊎◌, inl, inr, Option-cases, refl, Bool, true, false,
  Option, none, some, List, [], ◌∷◌, ◌++◌, arith, if◌then◌else◌,
}
use tierceron.GoStrings.{Text, codes}
use tierceron.GoNumbers.{format_uint}
use tierceron.Modifier.{Modifier}
use tierceron.Modifier.Operations.{gone, no_metadata}
use tierceron.Modifier.Paths.{delete_data_path, delete_metadata_path}
use tierceron.Modifier.Paths.Agreement.{
  IsSecretBucket, place, delete_data_path-place, delete_metadata_path-place,
}
use tierceron.Modifier.Retry.{retryable, notice}
use tierceron.Modifier.Vault.{Reply, delete, Vault, Outcome, returned, panicked}

-- what `HardDelete` logs where the metadata is not deleted
abbrev unable : Reply → ℕ → List Text
unable reply retries =
    if gone reply
    then []
    else (codes "Unable to delete metadata " ++ (format_uint retries ++ codes " retries.\n")) ∷ []

-- The end of the operation, after the metadata's deletion is answered.
abbrev metadata_deleted : Reply → ℕ → ℕ → List Text → Outcome Unit
metadata_deleted reply retries requests log =
    returned tt reply.err requests
      (log ++ (notice (codes "Modifier") reply.err retries ++ unable reply retries))

-- the loop with `left` retries left, after `retries` of them and `n` requests
unfoldable pub delete_both : Vault → Text → Text → ℕ → ℕ → ℕ → Outcome Unit
delete_both vault data_path metadata_path zero retries n =
    let reply = vault n (delete data_path) in
    let metadata_reply = vault (suc n) (delete metadata_path) in
    let log = notice (codes "Modifier") reply.err retries in
    if gone reply
    then metadata_deleted metadata_reply retries (n + 2) log
    else returned tt no_metadata (suc n) log
delete_both vault data_path metadata_path (suc left) retries n =
    let reply = vault n (delete data_path) in
    let metadata_reply = vault (suc n) (delete metadata_path) in
    let log = notice (codes "Modifier") reply.err retries in
    let after_data = delete_both vault data_path metadata_path left (suc retries) (suc n) in
    let after_metadata = delete_both vault data_path metadata_path left (suc retries) (n + 2) in
    let deleted = metadata_deleted metadata_reply retries (n + 2) log in
    let on_gone = if retryable metadata_reply.err then after_metadata else deleted in
    let on_reply = if gone reply then on_gone else returned tt no_metadata (suc n) log in
    if retryable reply.err then after_data else on_reply

abbrev delete_both_at : Vault → Option Text → Option Text → Outcome Unit
delete_both_at vault none o = panicked
delete_both_at vault (some data_path) none = panicked
delete_both_at vault (some data_path) (some metadata_path) =
    delete_both vault data_path metadata_path 3 0 0

-- `HardDelete`
unfoldable pub hard_delete : Modifier → Vault → Text → Outcome Unit
unfolding delete_data_path delete_metadata_path delete_both
hard_delete m vault path =
    delete_both_at vault (delete_data_path m path) (delete_metadata_path m path)

-- What a run that begins at request `n` promises: it makes a bounded number of requests, and where
-- it reports no error, its last two requests have deleted the data and then the metadata, without
-- an error.
abbrev pub Deleted : Vault → Text → Text → ℕ → ℕ → Outcome Unit → Type 0
Deleted vault data_path metadata_path left n panicked = ⊥
Deleted vault data_path metadata_path left n (returned u err requests log) =
    (n < requests)
    × (requests ≤ n + 2 * suc left)
    × ((err ≢ none)
        ⊎ ((k : ℕ) × (requests ≡ k + 2)
            × (gone (vault k (delete data_path)) ≡ true)
            × ((vault (suc k) (delete metadata_path)).err ≡ none)))

Deleted-later :
    (vault : Vault) (data_path metadata_path : Text) (left n k : ℕ) (o : Outcome Unit)
    → n ≤ k
    → k ≤ n + 2
    → Deleted vault data_path metadata_path left k o
    → Deleted vault data_path metadata_path (suc left) n o
Deleted-later vault data_path metadata_path left n k panicked h l d = d
Deleted-later vault data_path metadata_path left n k (returned u err requests log) h l (a, b, c) =
    (omega arith, omega arith, c)

Deleted-failed :
    (vault : Vault) (data_path metadata_path : Text) (left n : ℕ) (log : List Text)
    → Deleted vault data_path metadata_path left n (returned tt no_metadata (suc n) log)
Deleted-failed vault data_path metadata_path left n log = (omega arith, omega arith, inl (λ e. cc))

Deleted-done :
    (vault : Vault) (data_path metadata_path : Text) (left retries n : ℕ) (log : List Text)
    → gone (vault n (delete data_path)) ≡ true
    → Deleted vault data_path metadata_path left n
        (metadata_deleted (vault (suc n) (delete metadata_path)) retries (n + 2) log)
Deleted-done vault data_path metadata_path left retries n log h = (
  omega arith,
  omega arith,
  elim (Option-cases (vault (suc n) (delete metadata_path)).err) [
    | inl e ↦ inr (n, refl, h, e)
    | inr e ↦ inl (λ q. ground (arith, e.1, q))
  ],
)

-- the end of a run, which depends on the reply to the deletion of the data
Deleted-if :
    (vault : Vault) (data_path metadata_path : Text) (left n : ℕ) (o : Outcome Unit)
    (log : List Text) (b : Bool)
    → gone (vault n (delete data_path)) ≡ b
    → (gone (vault n (delete data_path)) ≡ true → Deleted vault data_path metadata_path left n o)
    → Deleted vault data_path metadata_path left n
        (if b then o else returned tt no_metadata (suc n) log)
Deleted-if vault data_path metadata_path left n o log true h k = k h
Deleted-if vault data_path metadata_path left n o log false h k =
    Deleted-failed vault data_path metadata_path left n log

Deleted-choose :
    (vault : Vault) (data_path metadata_path : Text) (left n : ℕ) (o p : Outcome Unit) (b : Bool)
    → Deleted vault data_path metadata_path left n o
    → Deleted vault data_path metadata_path left n p
    → Deleted vault data_path metadata_path left n (if b then o else p)
Deleted-choose vault data_path metadata_path left n o p true h k = h
Deleted-choose vault data_path metadata_path left n o p false h k = k

delete_both-Deleted :
    (vault : Vault) (data_path metadata_path : Text) (left retries n : ℕ)
    → Deleted vault data_path metadata_path left n
        (delete_both vault data_path metadata_path left retries n)
unfolding delete_both
delete_both-Deleted vault d m zero retries n =
    let reply = vault n (delete d) in
    let log = notice (codes "Modifier") reply.err retries in
    Deleted-if vault d m zero n (metadata_deleted (vault (suc n) (delete m)) retries (n + 2) log)
      log (gone reply) refl (Deleted-done vault d m zero retries n log)
delete_both-Deleted vault d m (suc left) retries n =
    let reply = vault n (delete d) in
    let metadata_reply = vault (suc n) (delete m) in
    let log = notice (codes "Modifier") reply.err retries in
    let done = metadata_deleted metadata_reply retries (n + 2) log in
    let after_data = delete_both vault d m left (suc retries) (suc n) in
    let after_metadata = delete_both vault d m left (suc retries) (n + 2) in
    let b = retryable metadata_reply.err in
    Deleted-choose vault d m (suc left) n after_data
      (if gone reply
        then if b then after_metadata else done
        else returned tt no_metadata (suc n) log)
      (retryable reply.err)
      (Deleted-later vault d m left n (suc n) after_data (omega arith) (omega arith)
        (delete_both-Deleted vault d m left (suc retries) (suc n)))
      (Deleted-if vault d m (suc left) n (if b then after_metadata else done) log (gone reply) refl
        (λ h.
          Deleted-choose vault d m (suc left) n after_metadata done b
            (Deleted-later vault d m left n (n + 2) after_metadata (omega arith) (omega arith)
              (delete_both-Deleted vault d m left (suc retries) (n + 2)))
            (Deleted-done vault d m (suc left) retries n log h)))

-- `HardDelete` of a path of a secret bucket makes at least one and at most eight requests and does
-- not panic. Where it reports no error, it has deleted the data and then the metadata of the path,
-- as its last two requests, and the vault has answered both without an error.
pub hard_delete-Deleted :
    (m : Modifier) (vault : Vault) (bucket rest : Text)
    → IsSecretBucket bucket
    → Deleted vault
        (place bucket (codes "data/") m.env rest)
        (place bucket (codes "metadata/") m.env rest)
        3
        0
        (hard_delete m vault (bucket ++ b'/' ∷ rest))
unfolding hard_delete
hard_delete-Deleted m vault bucket rest h =
    rw (delete_data_path-place m bucket rest h, delete_metadata_path-place m bucket rest h)
      (delete_both-Deleted vault (place bucket (codes "data/") m.env rest)
        (place bucket (codes "metadata/") m.env rest) 3 0 0)
