-- ===== src/Modifier/Examples.antt =====
-- The theorems on the modifier at concrete inputs.
use tierceron.Base.{
  zero, suc, ◌≤◌, ◌≡◌, ◌≢◌, ◌⊎◌, ◌↔◌, refl, true, false, none, some, List, [], ◌∷◌, inl, inr, arith,
}
use tierceron.GoStrings.{Text, codes, contains, has_prefix}
use tierceron.Base.{ℤ, pos, negsuc, ◌+ℤ◌}
use tierceron.GoNumbers.{itoa, format_digits}
use tierceron.Modifier.Counters.{add_int64, adjust_key, adjust_key-sum}
use tierceron.Modifier.{Modifier}
use tierceron.Modifier.Cache.{Entries, cache_key, release}
use tierceron.Modifier.Cache.Entries.{IsSound}
use tierceron.Modifier.Cache.Sound.{EndsSound, release-IsSound}
use tierceron.Modifier.Environment.{refused, pre_check_environment, policies, validate_environment}
use tierceron.Modifier.Environment.Granted.{Grant, validate_environment-Grant}
use tierceron.Modifier.HardDelete.{hard_delete, Deleted, hard_delete-Deleted}
use tierceron.Modifier.Operations.{read_metadata, read_version_metadata}
use tierceron.Modifier.Operations.Missing.{metadata-panicked}
use tierceron.Modifier.Paths.{
  no_environments, write_path, read_data_path, section_or_path, read_metadata_path,
  delete_data_path, version_metadata_path, list_path, delete_metadata_path,
}
use tierceron.Modifier.Paths.Agreement.{place, paths_agree}
use tierceron.Modifier.Paths.Isolation.{write_path-environment}
use tierceron.Modifier.ReadData.{Memory, read_query}
use tierceron.Modifier.ReadData.Versions.{read_query-x_mode}
use tierceron.Modifier.Retry.{retryable, retry, AllRetried, retry_lem}
use tierceron.Modifier.Vault.{
  text, scalar, Fields, absent, fields, Secret, timeout, read, read_version, Vault, panicked,
  lookup,
}

abbrev modifier : Modifier
modifier = record {
  insecure = false;
  address = codes "https://vault:8200";
  env = codes "dev";
  raw_env = codes "dev";
  regions = [];
  version = [];
  version_filter = [];
  template_path = [];
  project_index = [];
  section_key = [];
  section_name = [];
  sub_section_name = [];
  sub_section_value = [];
  section_path = [];
  stale = false;
}

abbrev in_section : Modifier
in_section = record modifier { section_path = codes "super-secrets/Index/P/id/1/S" }

section_write : write_path in_section (codes "values/S") ≡ codes "values/data/dev/Index/P/id/1/S/"
unfolding write_path
section_write = refl

paths_agree_example :
    let path = codes "super-secrets/P" in
    let data_place = place (codes "super-secrets") (codes "data/") (codes "dev") (codes "P") in
    let metadata_place =
      place (codes "super-secrets") (codes "metadata/") (codes "dev") (codes "P") in
    (write_path modifier path ≡ data_place)
    × (read_data_path modifier (section_or_path modifier path) ≡ data_place)
    × (read_metadata_path modifier path ≡ some data_place)
    × (delete_data_path modifier path ≡ some data_place)
    × (version_metadata_path modifier path ≡ metadata_place)
    × (list_path modifier path ≡ metadata_place)
    × (delete_metadata_path modifier path ≡ some metadata_place)
unfolding contains
paths_agree_example =
    paths_agree modifier (codes "super-secrets") (codes "P") refl (inl refl) refl refl

write_path-environment_example :
    (r : Text) × (write_path in_section (codes "values/S")
      ≡ place (codes "values") (codes "data/") (codes "dev") r)
unfolding no_environments
write_path-environment_example =
    write_path-environment in_section (codes "values") (some (codes "S")) (ground arith) refl
      (ground arith) (λ e. cc)

abbrev cache : Entries
cache =
    (
      cache_key (codes "dev") (codes "https://vault:8200"),
      record { count = 1; channel = modifier ∷ [] },
    )
    ∷ []

cache-IsSound : IsSound cache
cache-IsSound = ((refl, omega arith), tt)

release-IsSound_example : EndsSound (release modifier cache)
release-IsSound_example = release-IsSound modifier cache cache-IsSound

validate_environment-Grant_example :
    let v = validate_environment (codes "dev.7") false [] (policies (codes "Config_Dev" ∷ [])) in
    (v.valid ≡ true) ↔ (
      (pre_check_environment (codes "dev.7") ≢ refused)
      × ((ps : List Text) × (policies (codes "Config_Dev" ∷ []) ≡ policies ps) × Grant v.policy ps))
validate_environment-Grant_example =
    validate_environment-Grant (codes "dev.7") false [] (policies (codes "Config_Dev" ∷ []))

abbrev content : Fields
content = (codes "user", scalar (text (codes "fred"))) ∷ []

abbrev secret : Secret
secret = record {
  data_part = fields content;
  metadata_part = absent;
  versions_part = absent;
  warnings = [];
}

-- a vault that answers from the third request on
abbrev slow_vault : Vault
slow_vault zero request = record { secret = none; err = some timeout }
slow_vault (suc zero) request = record { secret = none; err = some timeout }
slow_vault (suc (suc n)) request = record { secret = some secret; err = none }

retry_lem_example :
    let n = (retry slow_vault (read (codes "values/data/dev/P"))).1 in
    ((retry slow_vault (read (codes "values/data/dev/P"))).0
      ≡ slow_vault n (read (codes "values/data/dev/P")))
    × (n ≤ 3)
    × ((n ≡ 3) ⊎ (retryable (slow_vault n (read (codes "values/data/dev/P"))).err ≡ false))
    × AllRetried slow_vault (read (codes "values/data/dev/P")) n
retry_lem_example = retry_lem slow_vault (read (codes "values/data/dev/P"))

-- a vault in which nothing stands
abbrev empty_vault : Vault
empty_vault n request = record { secret = none; err = none }

hard_delete-Deleted_example :
    Deleted empty_vault
      (place (codes "values") (codes "data/") (codes "dev") (codes "P"))
      (place (codes "values") (codes "metadata/") (codes "dev") (codes "P"))
      3
      0
      (hard_delete modifier empty_vault (codes "values/P"))
hard_delete-Deleted_example =
    hard_delete-Deleted modifier empty_vault (codes "values") (codes "P") (inr refl)

metadata-panicked_example :
    let reply =
      (retry empty_vault
        (read (place (codes "values") (codes "data/") (codes "dev") (codes "P")))).0 in
    let version_reply =
      (retry empty_vault
        (read (place (codes "values") (codes "metadata/") (codes "dev") (codes "P")))).0 in
    ((read_metadata modifier empty_vault (codes "values/P") ≡ panicked) ↔ (reply.secret ≡ none))
    × ((read_version_metadata modifier empty_vault (codes "values/P") ≡ panicked)
        ↔ ((version_reply.secret ≡ none) × (retryable version_reply.err ≡ true)))
metadata-panicked_example =
    metadata-panicked modifier empty_vault (codes "values") (codes "P") (inr refl)

abbrev memory : Memory
memory = record { memonly = true; check = λ bucket key. true }

abbrev in_x_mode : Modifier
in_x_mode = record modifier { version = codes "5***X-Mode" }

read_query-x_mode_example :
    let asked = record modifier { version = codes "5" } in
    (read_query in_x_mode (codes "templates/P") (codes "templates/data/P")
      ≡ (some (read_version (codes "templates/data/P") (codes "5")), asked))
    × (read_query asked (codes "templates/P") (codes "templates/data/P")
        ≡ (some (read (codes "templates/data/P")), asked))
unfolding has_prefix
read_query-x_mode_example =
    read_query-x_mode in_x_mode (codes "templates/P") (codes "templates/data/P") (codes "5") refl
      (ground arith) refl

abbrev counters : Fields
counters = (codes "P.a", scalar (text (codes "41"))) ∷ (codes "P.b", scalar (text (codes "7"))) ∷ []

adjust_key-sum_example :
    (e : Fields) × (adjust_key (codes "P.a") (pos 1) counters ≡ some e)
    × (lookup (codes "P.a") e ≡ some (scalar (text (itoa (add_int64 (pos 41) (pos 1))))))
    × (lookup (codes "P.b") e ≡ lookup (codes "P.b") counters)
unfolding lookup itoa format_digits
adjust_key-sum_example =
    adjust_key-sum (codes "P.a") (codes "P.b") (pos 41) (pos 1) counters (omega arith) refl
      (λ e. ground (arith, e))

abbrev lowest : ℤ
lowest = negsuc 9223372036854775807

wraps : add_int64 (pos 9223372036854775807) (pos 1) ≡ lowest
unfolding add_int64 ◌+ℤ◌
wraps = refl
