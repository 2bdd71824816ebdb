-- ===== src/Modifier/Paths/Agreement.antt =====
-- The places of the vault that the operations ask for.
use tierceron.Base.{
  ◌≡◌, refl, false, ◌⊎◌, inl, inr, ap, ◌∙◌, some, [], ◌∷◌, ◌++◌, arith, append-nil,
}
use tierceron.GoStrings.{Text, codes, contains}
use tierceron.GoStrings.Parts.{split_after_sep}
use tierceron.GoStrings.Search.{Lacks, has_suffix-append, has_prefix-append}
use tierceron.Modifier.{Modifier}
use tierceron.Modifier.Paths.{
  no_environments, write_path, raw_write_path, read_data_path, section_or_path, read_metadata_path,
  version_metadata_path, list_path, delete_data_path, delete_metadata_path, folder_path, env_part,
  env_or_local, super_secrets, secret_path,
}

-- a bucket that keeps its secrets by environment
abbrev pub IsSecretBucket : Text → Type 0
IsSecretBucket bucket = (bucket ≡ codes "super-secrets") ⊎ (bucket ≡ codes "values")

-- what stands at a place of an environment, in a folder of a bucket
abbrev pub place : Text → Text → Text → Text → Text
place bucket folder env rest = (bucket ++ b'/' ∷ []) ++ (folder ++ ((env ++ codes "/") ++ rest))

bucket-Lacks : (bucket : Text) → IsSecretBucket bucket → Lacks b'/' bucket
bucket-Lacks bucket (inl e) = rw e (ground arith)
bucket-Lacks bucket (inr e) = rw e (ground arith)

no_environments-bucket :
    (bucket : Text) → IsSecretBucket bucket → no_environments (bucket ++ b'/' ∷ []) ≡ false
unfolding no_environments
no_environments-bucket bucket (inl e) = rw e refl
no_environments-bucket bucket (inr e) = rw e refl

secret_path-bucket :
    (bucket rest : Text)
    → IsSecretBucket bucket
    → secret_path (bucket ++ b'/' ∷ rest) ≡ bucket ++ b'/' ∷ rest
unfolding secret_path
secret_path-bucket bucket rest (inl e) =
    rw e (ground (arith, has_prefix-append (codes "super-secrets") (b'/' ∷ rest)))
secret_path-bucket bucket rest (inr e) =
    rw e (ground (arith, has_prefix-append (codes "values") (b'/' ∷ rest)))

pub folder_path-place :
    (m : Modifier) (folder bucket rest : Text)
    → IsSecretBucket bucket
    → folder_path m folder (bucket ++ b'/' ∷ rest) ≡ some (place bucket folder m.env rest)
unfolding folder_path env_part
folder_path-place m folder bucket rest h = ground (
  arith,
  split_after_sep bucket rest b'/' (bucket-Lacks bucket h),
  no_environments-bucket bucket h,
)

read_data_path-place :
    (m : Modifier) (bucket rest : Text)
    → IsSecretBucket bucket
    → read_data_path m (bucket ++ b'/' ∷ rest) ≡ place bucket (codes "data/") m.env rest
unfolding read_data_path env_or_local
read_data_path-place m bucket rest h = ground (
  arith,
  split_after_sep bucket rest b'/' (bucket-Lacks bucket h),
  no_environments-bucket bucket h,
)

pub version_metadata_path-place :
    (m : Modifier) (bucket rest : Text)
    → IsSecretBucket bucket
    → version_metadata_path m (bucket ++ b'/' ∷ rest) ≡ place bucket (codes "metadata/") m.env rest
unfolding version_metadata_path env_part
version_metadata_path-place m bucket rest h = ground (
  arith,
  split_after_sep bucket rest b'/' (bucket-Lacks bucket h),
  no_environments-bucket bucket h,
)

list_path-place :
    (m : Modifier) (bucket rest : Text)
    → IsSecretBucket bucket
    → list_path m (bucket ++ b'/' ∷ rest) ≡ place bucket (codes "metadata/") m.env rest
unfolding list_path env_or_local
list_path-place m bucket rest h = ground (
  arith,
  split_after_sep bucket rest b'/' (bucket-Lacks bucket h),
  no_environments-bucket bucket h,
  has_suffix-append ((bucket ++ b'/' ∷ []) ++ (codes "metadata" ++ (codes "/" ++ m.env)))
      (codes "/"),
)

env_or_local-bucket :
    (env bucket : Text)
    → IsSecretBucket bucket
    → env_or_local env (bucket ++ b'/' ∷ []) ≡ env ++ codes "/"
unfolding env_or_local
env_or_local-bucket env bucket h = ground (arith, no_environments-bucket bucket h)

-- the path of a write before the super-secrets are taken out, without a section
raw_write_path-place :
    (m : Modifier) (bucket rest : Text)
    → m.section_path ≡ []
    → IsSecretBucket bucket
    → contains (place bucket (codes "data/") m.env []) (codes "/" ++ (rest ++ codes "/")) ≡ false
    → raw_write_path m (bucket ++ b'/' ∷ rest) ≡ place bucket (codes "data/") m.env rest
unfolding raw_write_path
raw_write_path-place m bucket rest e h k =
    rw
      (
        split_after_sep bucket rest b'/' (bucket-Lacks bucket h),
        env_or_local-bucket m.env bucket h,
        e,
      )
      (ground (arith, append-nil (m.env ++ codes "/")))

write_path-place :
    (m : Modifier) (bucket rest : Text)
    → m.section_path ≡ []
    → IsSecretBucket bucket
    → contains (place bucket (codes "data/") m.env []) (codes "/" ++ (rest ++ codes "/")) ≡ false
    → contains (place bucket (codes "data/") m.env rest) super_secrets ≡ false
    → write_path m (bucket ++ b'/' ∷ rest) ≡ place bucket (codes "data/") m.env rest
unfolding write_path
write_path-place m bucket rest e h k l = ground (arith, raw_write_path-place m bucket rest e h k)

section_or_path-none :
    (m : Modifier) (path : Text) → m.section_path ≡ [] → section_or_path m path ≡ path
unfolding section_or_path
section_or_path-none m path e = ground arith

pub delete_data_path-place :
    (m : Modifier) (bucket rest : Text)
    → IsSecretBucket bucket
    → delete_data_path m (bucket ++ b'/' ∷ rest) ≡ some (place bucket (codes "data/") m.env rest)
unfolding delete_data_path
delete_data_path-place m bucket rest h =
    ap (folder_path m (codes "data/")) (secret_path-bucket bucket rest h)
    ∙ folder_path-place m (codes "data/") bucket rest h

pub delete_metadata_path-place :
    (m : Modifier) (bucket rest : Text)
    → IsSecretBucket bucket
    → delete_metadata_path m (bucket ++ b'/' ∷ rest)
      ≡ some (place bucket (codes "metadata/") m.env rest)
unfolding delete_metadata_path
delete_metadata_path-place m bucket rest h =
    ap (folder_path m (codes "metadata/")) (secret_path-bucket bucket rest h)
    ∙ folder_path-place m (codes "metadata/") bucket rest h

-- Without a section, under super-secrets and under values: `Write`, `ReadData`, `ReadMetadata` and
-- the deletion of data ask for one place of the environment's data, and `ReadVersionMetadata`,
-- `List` and the deletion of metadata for the same place of its metadata, if the place of the data
-- does not hold super-secrets between slashes, and the rest of the path does not stand between
-- slashes in the part before it.
pub paths_agree :
    (m : Modifier) (bucket rest : Text)
    → m.section_path ≡ []
    → IsSecretBucket bucket
    → contains (place bucket (codes "data/") m.env []) (codes "/" ++ (rest ++ codes "/")) ≡ false
    → contains (place bucket (codes "data/") m.env rest) super_secrets ≡ false
    → let path = bucket ++ b'/' ∷ rest in
      let data_place = place bucket (codes "data/") m.env rest in
      let metadata_place = place bucket (codes "metadata/") m.env rest in
      (write_path m path ≡ data_place)
      × (read_data_path m (section_or_path m path) ≡ data_place)
      × (read_metadata_path m path ≡ some data_place)
      × (delete_data_path m path ≡ some data_place)
      × (version_metadata_path m path ≡ metadata_place)
      × (list_path m path ≡ metadata_place)
      × (delete_metadata_path m path ≡ some metadata_place)
unfolding read_metadata_path
paths_agree m bucket rest e h k l = (
  write_path-place m bucket rest e h k l,
  ap (read_data_path m) (section_or_path-none m (bucket ++ b'/' ∷ rest) e)
      ∙ read_data_path-place m bucket rest h,
  folder_path-place m (codes "data/") bucket rest h,
  delete_data_path-place m bucket rest h,
  version_metadata_path-place m bucket rest h,
  list_path-place m bucket rest h,
  delete_metadata_path-place m bucket rest h,
)
