-- ===== src/SeedWrites/Values.antt =====
-- The loop of SeedVaultFromData of pkg/trcinit/initlib/vault-seed.go over the values of a seed file,
-- with the first connection in front of it. Certificates are seeded elsewhere.
use tierceron.Base.{
  ℕ, ltb, Bool, true, false, not, ◌&&◌, ◌||◌, Option, none, some, List, [], ◌∷◌, ◌++◌, take, drop,
  ◌+◌, if◌then◌else◌,
}
use tierceron.ConfigStore.Selection.{first_part}
use tierceron.GoStrings.{
  Text, codes, text_eq, is_empty, has_prefix, has_suffix, contains, split, replace_all, last_index,
  trim_suffix,
}
use tierceron.Modifier.{Modifier}
use tierceron.SeedWrites.{Collection}
use mathlib.Core.Option
use tierceron.SeedWrites.Writes.{
  Answers, Driver, Writer, certificate, skipped, Seeded, seeded, ended, after_effects, connect,
  write_data,
}

-- What is given: whether certificates are wanted, the first of the services that are wanted, the
-- filter of services, whether the file is of an index, and its path.
pub record Wanted : Type 0 where
  pub want_certs : Bool
  pub service : Text
  pub service_filter : List Text
  pub is_index_data : Bool
  pub filepath : Text

unfoldable pub has_field : Text → List (Text × Text) → Bool
has_field name [] = false
has_field name ((k, v) ∷ rest) = text_eq k name || has_field name rest

abbrev pub seeds_cert : Wanted → Collection → Bool
seeds_cert w c =
    has_prefix c.path (codes "values/")
    && ((has_field (codes "certSourcePath") c.fields || has_field (codes "certData") c.fields)
        && w.want_certs)

abbrev pub seeds_data : Wanted → Collection → Bool
seeds_data w c =
    let is_cert = has_field (codes "certData") c.fields in
    is_cert && has_prefix c.path (codes "templates/") || not w.want_certs && not is_cert

-- the path of the file as the path of a secret
unfoldable pub index_path : Text → Text
index_path filepath =
    let cut : Text =
      if has_suffix filepath (codes "_seed.yml")
      then replace_all filepath (codes "_seed.yml") []
      else filepath in
    if has_prefix cut (codes "super-secrets") then cut else codes "super-secrets" ++ cut

-- the values of one map; the path of the file is the same once it has been changed
unfoldable pub seed_entry : Answers → Driver → Wanted → Writer → Collection → Seeded
unfolding write_data has_field index_path
seed_entry a d g w c =
    if seeds_cert g c
    then seeded w (certificate c ∷ [])
    else if not (seeds_data g c)
    then seeded w (skipped c.path ∷ [])
    else if not (is_empty g.service)
    then (if has_suffix c.path g.service || contains c.path (codes "Common")
        then write_data a d w c.path c.fields
        else seeded w [])
    else if contains g.filepath (codes "/PublicIndex/")
    then (if contains c.path (codes "templates")
        then seeded w []
        else write_data a d w (index_path g.filepath) c.fields)
    else write_data a d w c.path c.fields

abbrev pub then_seed : Seeded → (Writer → Seeded) → Seeded
then_seed (ended es) rest = ended es
then_seed (seeded w es) rest = after_effects es (rest w)

-- The loop over the values of the file.
unfoldable pub seed_entries : Answers → Driver → Wanted → Writer → List Collection → Seeded
unfolding seed_entry
seed_entries a d g w [] = seeded w []
seed_entries a d g w (c ∷ rest) =
    then_seed (seed_entry a d g w c) (λ next. seed_entries a d g next rest)

-- a service in front of the last part of a path; that of an index has two parts at least
abbrev pub with_service : Text → Text → Option ℕ → Text
with_service path service none = path
with_service path service (some i) = take (i + 1) path ++ (service ++ drop i path)

abbrev pub filtered_path : List Text → Text → Text
filtered_path [] path = path
filtered_path (service ∷ _) path =
    if contains path service then path else with_service path service (last_index path (codes "/"))

-- the path of the section that the values of a file are written to
unfoldable pub section_of : Wanted → Text → Text
section_of g section_path =
    let cut = trim_suffix g.filepath (codes "_seed.yml") in
    if contains g.filepath (codes "/PublicIndex/")
    then section_path
    else if g.is_index_data
    then filtered_path g.service_filter cut
    else if has_prefix g.filepath (codes "Restricted/")
        || has_prefix g.filepath (codes "Protected/")
    then cut
    else section_path

-- the modifier as it is set before the values are written
unfoldable pub placed : Driver → Wanted → Modifier → Modifier
unfolding section_of
placed d g m = record m {
  env = first_part (split d.env (codes "_"));
  section_path = section_of g m.section_path;
}

abbrev pub seed_with :
    Answers → Driver → Wanted → List Text → List Collection → ℕ → Modifier → Seeded
seed_with a d g written cs k m =
    seed_entries a d g (record { modifier = placed d g m; written = written; asked = k }) cs

-- behind the first connection, where there is none the one without the cache
abbrev pub seed_connected :
    Answers → Driver → Wanted → List Text → List Collection → Option Modifier → Option Seeded
seed_connected a d g written cs (some m) = some (seed_with a d g written cs 1 m)
seed_connected a d g written cs none =
    Option.map (seed_with a d g written cs 2) (connect a d false 1)

-- The values of a file, from the first connection on; where there is none, nothing is written.
unfoldable pub seed_values : Answers → Driver → Wanted → List Text → List Collection → Option Seeded
unfolding connect placed seed_entries
seed_values a d g written cs = seed_connected a d g written cs (connect a d true 0)

-- whether the data of a file is refused: it holds a secret that has not been entered
unfoldable pub refuses : (filepath content : Text) → Bool
refuses filepath content =
    contains content (codes "<Enter Secret Here>")
    && not (has_prefix filepath (codes "Index/") || contains filepath (codes "/PublicIndex/"))

abbrev pub cut_at : Text → Option ℕ → Text
cut_at s none = s
cut_at s (some i) = if ltb 0 i then take i s else s

-- the path of a file without the environment, and with a slash in front of an index
unfoldable pub seed_filepath : (env filepath : Text) → Text
seed_filepath env filepath =
    let cut : Text =
      if has_prefix filepath (codes "Restricted/") || has_prefix filepath (codes "Protected/")
      then cut_at filepath (last_index filepath (codes "/" ++ env))
      else filepath in
    if has_prefix cut (codes "PublicIndex/") then codes "/" ++ cut else cut
