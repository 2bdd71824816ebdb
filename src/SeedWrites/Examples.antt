-- ===== src/SeedWrites/Examples.antt =====
-- A seed file with two secrets, of which the vault does not take the second at once.
use tierceron.Base.{◌≡◌, refl, true, false, not, some, none, List, [], ◌∷◌, ◌++◌}
use tierceron.GoStrings.{Text, codes, text_eq, contains, split, has_prefix, last_index, trim_suffix}
use tierceron.SeedWrites.{Entries, no_entries, entry, branch, value, Collection, collections}
use tierceron.SeedWrites.Lost.{fates, renewed, all_done, seed_values-fates}
use tierceron.SeedWrites.Stack.{walk, collections-walk}
use tierceron.Modifier.Paths.{write_path}
use tierceron.SeedWrites.Writes.{Answers, Driver, stored, lost, write_data, write_once, connect}
use tierceron.SeedWrites.Values.{
  Wanted, seed_values, seed_entries, seed_entry, placed, section_of, has_field, refuses,
  seed_filepath,
}

abbrev service_entries : Text → Entries → Entries
service_entries password rest = entry (codes "password") (value password) rest

abbrev root : Entries
root =
    entry (codes "super-secrets")
      (branch (
        entry (codes "A") (branch (service_entries (codes "p1") no_entries))
          (entry (codes "B") (branch (service_entries (codes "p2") no_entries)) no_entries)))
      (entry (codes "verification") (branch (service_entries (codes "x") no_entries)) no_entries)

abbrev secrets : List Collection
secrets =
    record { path = codes "super-secrets/B"; fields = (codes "password", codes "p2") ∷ [] }
    ∷ record { path = codes "super-secrets/A"; fields = (codes "password", codes "p1") ∷ [] }
    ∷ []

collections-walk_example : collections root ≡ some (walk [] root)
collections-walk_example = collections-walk root

-- The vault does not take the secret of A; the cache is empty.
abbrev answers : Answers
answers = record {
  write_ok = λ k path. not (contains path (codes "/A"));
  pooled = λ k. none;
  client_ok = λ k. true;
}

abbrev driver : Driver
driver = record {
  insecure = false;
  address = codes "https://vault";
  env = codes "dev_1";
  exit_on_failure = true;
}

abbrev whole : Wanted
whole = record {
  want_certs = false;
  service = [];
  service_filter = [];
  is_index_data = false;
  filepath = codes "Restricted/P";
}

abbrev third : Collection
third = record { path = codes "super-secrets/C"; fields = [] }

seed_values-fates_example :
    all_done (seed_values answers driver whole [] (secrets ++ third ∷ []))
    ≡ some (
        fates answers
          (renewed answers driver)
          1
          (placed driver whole (renewed answers driver 0))
          (secrets ++ third ∷ []))
unfolding contains split text_eq has_field
seed_values-fates_example =
    seed_values-fates answers driver whole [] (secrets ++ third ∷ []) (λ k. refl) (refl, refl, refl)
      ((refl, refl), ((refl, refl), ((refl, refl), tt)))

-- The value behind the lost one is written outside the section and the environment of the file.
astray :
    all_done (seed_values answers driver whole [] (secrets ++ third ∷ []))
    ≡ some (
        stored (codes "super-secrets/data/dev/Restricted/P/B") ((codes "password", codes "p2") ∷ [])
        ∷ lost (codes "super-secrets/A")
        ∷ stored (codes "super-secrets/data/secret/C") []
        ∷ [])
unfolding seed_values seed_entries seed_entry write_data write_once connect placed section_of
    write_path contains split text_eq has_field has_prefix trim_suffix
astray = refl

incomplete :
    (refuses (codes "dev_seed.yml") (codes "a: <Enter Secret Here>") ≡ true)
    × (refuses (codes "Index/P/a_seed.yml") (codes "a: <Enter Secret Here>") ≡ false)
unfolding contains refuses has_prefix
incomplete = (refl, refl)

restricted :
    seed_filepath (codes "dev") (codes "Restricted/P/dev/a_seed.yml") ≡ codes "Restricted/P"
unfolding seed_filepath has_prefix last_index
restricted = refl
