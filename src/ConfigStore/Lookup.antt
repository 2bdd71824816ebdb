-- ===== src/ConfigStore/Lookup.antt =====
-- `GetValue` of pkg/cli/trcconfigbase/utils/dataStorePopulator.go against the files of the store, and
-- behind `Init`.
use tierceron.Base.{
  ◌≡◌, ◌≢◌, refl, sym, ap, ◌∙◌, Bool, true, false, Option, none, some, List, [], ◌∷◌, ◌++◌, arith,
  ◌⊎◌, inl, inr, All, length, append-nil, get_elem?,
}
use tierceron.ConfigStore.{
  Slot, plain, files, ConfigDataStore, Place, at_files, at_values, scan_part, into_file, descend,
  descend_all, text_of, nested_key, nested_value, slot_file, slot_value, get_value,
  get_config_values,
}
use tierceron.ConfigStore.Filled.{Resolves, fill_store-kept}
use tierceron.ConfigStore.Followed.{LeadsTo, resolve-link}
use tierceron.ConfigStore.Found.{Apart}
use tierceron.ConfigStore.Init.{fill_store, fields_or_nil}
use tierceron.ConfigStore.Links.{done, or_empty, scrub}
use tierceron.ConfigStore.Selection.{file_dir, slashed, last_of, first_part}
use tierceron.ConfigStore.Stored.{path_service, path_dir}
use tierceron.GoMaps.{Map, fetch}
use tierceron.GoStrings.{Text, codes, split, join}
use tierceron.Modifier.Vault.{Fields, Scalar, items}
use mathlib.Core.Path.{subst}

scan_part-found :
    (part : Text) (fs : Map Fields) (here : Place) (ok : Bool) (values : Fields)
    → fetch part fs ≡ some values
    → scan_part into_file part fs here ok ≡ (at_values values, true)
unfolding scan_part fetch
scan_part-found part [] here ok values e = cc
scan_part-found part ((k, v) ∷ fs) here ok values e =
    ground (arith, e, scan_part-found part fs here false values)

scan_part-missing :
    (part : Text) (fs : Map Fields) (here : Place)
    → fetch part fs ≡ none
    → scan_part into_file part fs here false ≡ (here, false)
unfolding scan_part fetch
scan_part-missing part [] here e = refl
scan_part-missing part ((k, v) ∷ fs) here e = ground (arith, e, scan_part-missing part fs here)

-- the key of a file in folders is what `Init` names it
slashed-nested : (p : Text) (ps : List Text) → slashed (p ∷ ps) ≡ nested_key (p ∷ ps)
unfolding slashed join
slashed-nested p [] = ap (λ (t : Text). codes "/" ++ t) (append-nil p)
slashed-nested p (q ∷ ps) = ap (λ (t : Text). codes "/" ++ (p ++ t)) (slashed-nested q ps)

file_dir-nested :
    (a b c p q : Text) (ps : List Text)
    → file_dir (a ∷ b ∷ c ∷ p ∷ q ∷ ps) ≡ nested_key (p ∷ q ∷ ps)
unfolding file_dir
file_dir-nested a b c p q ps = ground (arith, slashed-nested p (q ∷ ps))

-- The files of a service that has any: where no file has the first part as its name, the path is
-- lost at once.
descend-missing :
    (part k : Text) (v : Fields) (fs : Map Fields)
    → fetch part ((k, v) ∷ fs) ≡ none
    → descend part (at_files ((k, v) ∷ fs)) ≡ (at_files ((k, v) ∷ fs), false)
unfolding descend scan_part fetch
descend-missing part k v fs e =
    ground (arith, e, scan_part-missing part fs (at_files ((k, v) ∷ fs)))

single-value :
    (file key : Text) (fs : Map Fields) (values : Fields)
    → fetch file fs ≡ some values
    → slot_value (file ∷ []) key (some (files fs)) ≡ text_of (fetch key values)
unfolding descend_all descend
single-value file key fs values e = rw (scan_part-found file fs (at_files fs) true values e) refl

nested-value :
    (p q : Text) (ps : List Text) (key : Text) (fs : Map Fields) (values : Fields)
    → fetch p fs ≡ none
    → fetch (nested_key (p ∷ q ∷ ps)) fs ≡ some values
    → slot_value (p ∷ q ∷ ps) key (some (files fs)) ≡ text_of (fetch key values)
unfolding descend_all nested_value
nested-value p q ps key [] values n e = unfold fetch in cc
nested-value p q ps key ((k, v) ∷ fs) values n e = rw (descend-missing p k v fs n, e) refl

-- one file of a service, as `Init` names it
slot-value :
    (a project service : Text) (key_path : List Text) (key : Text) (o : Option Slot)
    (values : Fields)
    → key_path ≢ []
    → slot_file (file_dir (a ∷ project ∷ service ∷ key_path)) o ≡ some values
    → (length key_path ≡ 1) ⊎ (slot_file (first_part key_path) o ≡ none)
    → slot_value key_path key o ≡ text_of (fetch key values)
unfolding file_dir last_of
slot-value a project service [] key o values n e h = absurd (n refl)
slot-value a project service (p ∷ []) key (some (files fs)) values n e h =
    single-value p key fs values e
slot-value a project service (p ∷ q ∷ ps) key (some (files fs)) values n e (inl h) =
    absurd (omega (arith, h))
slot-value a project service (p ∷ q ∷ ps) key (some (files fs)) values n e (inr h) =
    nested-value p q ps key fs values h
      (ap (λ (t : Text). fetch t fs) (sym (file_dir-nested a project service p q ps)) ∙ e)
slot-value a project service (p ∷ ps) key none values n e h = cc
slot-value a project service (p ∷ ps) key (some (plain s)) values n e h = cc

-- `GetValue` reads from the values of a file that `GetConfigValues` returns, if the path of the file
-- is not empty, and has one part or a first part that is the name of no file of the service.
pub get_value-get_config_values :
    (cds : ConfigDataStore) (a project service : Text) (key_path : List Text) (key : Text)
    (values : Fields)
    → key_path ≢ []
    → get_config_values cds service (file_dir (a ∷ project ∷ service ∷ key_path)) ≡ some values
    → (length key_path ≡ 1) ⊎ (get_config_values cds service (first_part key_path) ≡ none)
    → get_value cds service key_path key ≡ text_of (fetch key values)
unfolding get_value get_config_values
get_value-get_config_values cds a project service key_path key values n e h =
    slot-value a project service key_path key (fetch service cds.data_map) values n e h

-- Behind an `Init` in the mode for secrets and with `useDirs` that ends without an error, `GetValue`
-- finds the values of a path that are left when its links are resolved, if the path is one of those
-- that the store is filled from, is wanted, names a project, a service other than Common and a file,
-- no later one has its service and file, and its file is not hidden by one with the name of its
-- first part.
pub get_value-fill_store :
    (read : Text → Option Fields) (regions services : List Text) (path : Text)
    (kept : Fields × Fields) (before after : List Text) (cds : ConfigDataStore)
    (a project service : Text) (key_path : List Text) (key : Text)
    → Resolves read regions services path kept
    → All (λ q. Apart (path_service path) (path_dir path) (path_service q) (path_dir q)) after
    → fill_store read regions true true services (before ++ path ∷ after) ≡ done cds
    → split path (codes "/") ≡ a ∷ project ∷ service ∷ key_path
    → key_path ≢ []
    → (length key_path ≡ 1) ⊎ (get_config_values cds service (first_part key_path) ≡ none)
    → get_value cds service key_path key ≡ text_of (fetch key kept.0)
get_value-fill_store read regions services path kept before after cds a project service key_path key
      w apart e parts n h =
    let P : List Text → Type 0 =
      λ ps. get_config_values cds (or_empty (get_elem? ps 2)) (file_dir ps) ≡ some kept.0 in
    get_value-get_config_values cds a project service key_path key kept.0 n
      (subst P parts (fill_store-kept read regions services path kept before after cds w apart e)) h

-- Behind an `Init` in the mode for secrets and with `useDirs` that ends without an error, `GetValue`
-- finds for the name of a link in the values of a path the text that the bucket of the link holds
-- under its key: if the path is one of those that the store is filled from, is wanted, names a
-- project, a service other than Common and a file, and its links are resolved without a panic; if no
-- later path has its service and file, and its file is not hidden by one with the name of its first
-- part; if the bucket is read and is not the common one, and the name, in which each dot is an
-- underscore, has no mark of a region.
pub get_value-link :
    (read : Text → Option Fields) (regions services : List Text) (path : Text)
    (kept : Fields × Fields) (before after : List Text) (cds : ConfigDataStore)
    (a project service : Text) (key_path : List Text) (name : Text) (link : List Scalar)
    (bucket key : Text) (d : Fields) (v : Text)
    → Resolves read regions services path kept
    → All (λ q. Apart (path_service path) (path_dir path) (path_service q) (path_dir q)) after
    → fill_store read regions true true services (before ++ path ∷ after) ≡ done cds
    → split path (codes "/") ≡ a ∷ project ∷ service ∷ key_path
    → key_path ≢ []
    → (length key_path ≡ 1) ⊎ (get_config_values cds service (first_part key_path) ≡ none)
    → LeadsTo read name link bucket key d v
    → fetch name (scrub (fields_or_nil (read path)) []) ≡ some (items link)
    → get_value cds service key_path name ≡ some v
get_value-link read regions services path kept before after cds a project service key_path name link
      bucket key d v w apart e parts n h l f =
    get_value-fill_store read regions services path kept before after cds a project service key_path
      name w apart e parts n h
    ∙ ap text_of (
        resolve-link read regions name link bucket key d v (fields_or_nil (read path)) kept l f
          w.resolved)
