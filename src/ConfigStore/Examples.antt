-- ===== src/ConfigStore/Examples.antt =====
-- A vault with one service that links into two buckets, for one region.
use tierceron.Base.{arith, ◌≡◌, refl, Option, none, some, List, [], ◌∷◌, inr, if◌then◌else◌, true}
use tierceron.ConfigStore.{
  ConfigDataStore, files, get_value, get_config_values, descend_all, descend, scan_part,
  nested_value,
}
use tierceron.ConfigStore.Filled.{Resolves}
use tierceron.ConfigStore.Followed.{LeadsTo}
use tierceron.ConfigStore.Init.{
  init, fill_store, fill_paths, fill_path, fill_dirs, fill_links, fill_file, take_values,
  take_value, all_texts, put_files, put_file,
}
use tierceron.ConfigStore.Links.{
  done, panicked, resolve, resolve_values, resolve_value, from_bucket, open_bucket, put_regions,
  put_value, discard_all, scrub, kept_values,
}
use tierceron.ConfigStore.Lookup.{get_value-link}
use tierceron.ConfigStore.Selection.{
  data_paths, end_paths, found_wanted, is_wanted, file_dir, slashed, last_of,
}
use tierceron.GoMaps.{fetch, store, discard}
use tierceron.GoStrings.{Text, codes, text_eq, split, has_suffix, replace_all}
use tierceron.Modifier.ReadData.{read_map_value}
use tierceron.Modifier.Vault.{scalar, items, Scalar, text, Fields, lookup}

abbrev file_path : Text
file_path = codes "templates/Acme/Web/conf/app"

abbrev bucket_path : Text
bucket_path = codes "super-secrets/Web"

abbrev password_link : List Scalar
password_link = text bucket_path ∷ text (codes "pw") ∷ []

abbrev bucket_fields : Fields
bucket_fields =
    (codes "pw", scalar (text (codes "s1"))) ∷ (codes "pw~west", scalar (text (codes "s2"))) ∷ []

abbrev file_fields : Fields
file_fields = (codes "db.password", items password_link) ∷ []

abbrev vault_read : Text → Option Fields
vault_read path =
    if text_eq path file_path
    then some file_fields
    else if text_eq path bucket_path
    then some bucket_fields
    else none

abbrev resolved_fields : Fields
resolved_fields =
    (codes "db_password", scalar (text (codes "s1")))
    ∷ (codes "db_password~west", scalar (text (codes "s2")))
    ∷ []

abbrev filled_store : ConfigDataStore
filled_store = record {
  data_map = (codes "Web", files ((codes "/conf/app", resolved_fields) ∷ [])) ∷ [];
  regions = codes "west" ∷ [];
}

file_path-Resolves :
    Resolves vault_read (codes "west" ∷ []) (codes "Web" ∷ []) file_path (resolved_fields, [])
unfolding found_wanted is_wanted split text_eq file_dir slashed last_of resolve resolve_values
    resolve_value from_bucket open_bucket put_regions put_value discard_all scrub kept_values fetch
    store discard read_map_value lookup replace_all
file_path-Resolves = record {
  wanted = refl;
  has_project = refl;
  has_service = refl;
  has_dir = refl;
  not_common = refl;
  resolved = refl;
}

password-LeadsTo :
    LeadsTo vault_read
      (codes "db_password")
      password_link
      bucket_path
      (codes "pw")
      bucket_fields
      (codes "s1")
unfolding text_eq read_map_value lookup
password-LeadsTo = record {
  parts = refl;
  apart = refl;
  readable = refl;
  value = refl;
  plain_name = omega arith;
}

filled :
    fill_store vault_read (codes "west" ∷ []) true true (codes "Web" ∷ []) (file_path ∷ [])
    ≡ done filled_store
unfolding fill_store fill_paths fill_path fill_dirs fill_links fill_file take_values take_value
    all_texts put_files put_file found_wanted is_wanted split text_eq file_dir slashed last_of
    resolve resolve_values resolve_value from_bucket open_bucket put_regions put_value discard_all
    scrub kept_values fetch store discard read_map_value lookup replace_all
filled = refl

get_value-link_example :
    get_value filled_store (codes "Web") (codes "conf" ∷ codes "app" ∷ []) (codes "db_password")
    ≡ some (codes "s1")
unfolding get_config_values fetch text_eq split replace_all scrub store
get_value-link_example =
    get_value-link vault_read (codes "west" ∷ []) (codes "Web" ∷ []) file_path (resolved_fields, [])
      [] [] filled_store (codes "templates") (codes "Acme") (codes "Web")
      (codes "conf" ∷ codes "app" ∷ []) (codes "db_password") password_link bucket_path (codes "pw")
      bucket_fields (codes "s1") file_path-Resolves tt filled refl (λ e. cc) (inr refl)
      password-LeadsTo refl

-- A file and a folder of one name: the file hides what is in the folder.
hidden :
    get_value
      record {
        data_map =
            (
              codes "Web",
              files ((codes "conf", file_fields) ∷ (codes "/conf/app", resolved_fields) ∷ []),
            )
            ∷ [];
        regions = [];
      }
      (codes "Web")
      (codes "conf" ∷ codes "app" ∷ [])
      (codes "db_password")
    ≡ none
unfolding get_value descend_all descend scan_part nested_value fetch text_eq
hidden = refl

-- A path of two parts has no part for its service.
two_parts : init vault_read [] true true (codes "Web" ∷ []) (codes "templates/Acme" ∷ []) ≡ panicked
unfolding init data_paths end_paths has_suffix fill_store fill_paths fill_path found_wanted
    is_wanted split text_eq
two_parts = refl
