-- ===== src/ConfigStore/Filled.antt =====
-- The values of one path in the store that `Init` fills, in the mode for secrets and with `useDirs`,
-- behind any paths before it and in front of any after it.
use tierceron.Base.{
  ◌≡◌, refl, sym, ◌∙◌, true, false, Option, none, some, List, [], ◌∷◌, ◌++◌, inl, All, All-imp,
  get_elem?,
}
use tierceron.ConfigStore.{Slot, ConfigDataStore, get_config_values}
use tierceron.ConfigStore.Found.{
  NoPlain, kept_for, Apart, put_file-NoPlain, put_file-kept, put_file-kept_other,
}
use tierceron.ConfigStore.Init.{
  Filling, take_values, put_file, put_files, fields_or_nil, fill_file, fill_dirs, fill_read,
  fill_parts, fill_path, fill_paths, fill_store,
}
use tierceron.ConfigStore.Links.{done, resolve, or_empty}
use tierceron.ConfigStore.Selection.{found_wanted, file_dir}
use tierceron.GoMaps.{Map, fetch}
use tierceron.GoStrings.{Text, codes, text_eq, is_empty, split}
use tierceron.Modifier.Vault.{Fields}
use mathlib.Core.Path.{subst}
use tierceron.ConfigStore.Stored.{
  Ensures, Ensures-bind, SameMap, take_values-SameMap, path_service, path_project, path_dir,
  fill_path-Put, fill_paths-Put,
}

-- The store holds no text, and these values for a file.
abbrev pub Keeps : Text → Text → Option Fields → Map Slot → Type 0
Keeps service dir kept m = NoPlain m × (kept_for service dir m ≡ kept)

abbrev FillingKeeps : Text → Text → Option Fields → Filling → Type 0
FillingKeeps service dir kept f = Keeps service dir kept f.data_map

abbrev common_name : Text
common_name = codes "Common"

put_files-NoPlain :
    (s d : Text) (values : Fields × Fields) (m : Map Slot)
    → NoPlain m
    → NoPlain (put_files s d values m)
unfolding put_files
put_files-NoPlain s d (values, []) m h = put_file-NoPlain s d values m h
put_files-NoPlain s d (values, v ∷ vs) m h =
    put_file-NoPlain s d values (put_file common_name d (v ∷ vs) m)
      (put_file-NoPlain common_name d (v ∷ vs) m h)

put_files-Keeps_other :
    (service dir s d : Text) (kept : Option Fields) (values : Fields × Fields) (m : Map Slot)
    → text_eq common_name service ≡ false
    → Apart service dir s d
    → Keeps service dir kept m
    → Keeps service dir kept (put_files s d values m)
unfolding put_files
put_files-Keeps_other service dir s d kept (values, []) m c h k =
    (put_file-NoPlain s d values m k.0, put_file-kept_other service dir s d values m h ∙ k.1)
put_files-Keeps_other service dir s d kept (values, v ∷ vs) m c h k =
    let n : Map Slot = put_file common_name d (v ∷ vs) m in
    (
      put_file-NoPlain s d values n (put_file-NoPlain common_name d (v ∷ vs) m k.0),
      put_file-kept_other service dir s d values n h
          ∙ (put_file-kept_other service dir common_name d (v ∷ vs) m (inl c) ∙ k.1),
    )

put_files-Keeps :
    (service dir : Text) (values : Fields × Fields) (m : Map Slot)
    → NoPlain m
    → Keeps service dir (some values.0) (put_files service dir values m)
unfolding put_files
put_files-Keeps service dir (values, []) m h =
    (put_file-NoPlain service dir values m h, put_file-kept service dir values m h)
put_files-Keeps service dir (values, v ∷ vs) m h =
    let n : NoPlain (put_file common_name dir (v ∷ vs) m) =
      put_file-NoPlain common_name dir (v ∷ vs) m h in
    (
      put_file-NoPlain service dir values (put_file common_name dir (v ∷ vs) m) n,
      put_file-kept service dir values (put_file common_name dir (v ∷ vs) m) n,
    )

fill_file-Keeps :
    (read : Text → Option Fields) (regions : List Text) (path project s d : Text) (f : Filling)
    (kept : Fields × Fields)
    → is_empty project ≡ false
    → is_empty s ≡ false
    → is_empty d ≡ false
    → resolve read regions (fields_or_nil (read path)) ≡ done kept
    → NoPlain f.data_map
    → Ensures (FillingKeeps s d (some kept.0)) (fill_file read regions path project s d f)
unfolding fill_file
fill_file-Keeps read regions path project s d f kept p q r e h =
    rw (p, q, r, e) (put_files-Keeps s d kept f.data_map h)

fill_parts-Keeps :
    (read : Text → Option Fields) (regions : List Text) (path : Text) (parts : List Text)
    (project s : Option Text) (f : Filling) (kept : Fields × Fields)
    → is_empty (or_empty project) ≡ false
    → is_empty (or_empty s) ≡ false
    → is_empty (file_dir parts) ≡ false
    → resolve read regions (fields_or_nil (read path)) ≡ done kept
    → NoPlain f.data_map
    → Ensures
        (FillingKeeps (or_empty s) (file_dir parts) (some kept.0))
        (fill_parts read regions path parts project s f)
fill_parts-Keeps read regions path parts (some p) (some s) f kept a b c e h =
    fill_file-Keeps read regions path p s (file_dir parts) f kept a b c e h
fill_parts-Keeps read regions path parts none (some s) f kept a b c e h = tt
fill_parts-Keeps read regions path parts (some p) none f kept a b c e h = tt
fill_parts-Keeps read regions path parts none none f kept a b c e h = tt

-- A path of a file that is wanted, and what its values are resolved to.
pub record Resolves (read : Text → Option Fields) (regions services : List Text) (path : Text)
    (kept : Fields × Fields) : Type 0 where
  pub wanted : found_wanted (split path (codes "/")) services ≡ some true
  pub has_project : is_empty (path_project path) ≡ false
  pub has_service : is_empty (path_service path) ≡ false
  pub has_dir : is_empty (path_dir path) ≡ false
  pub not_common : text_eq common_name (path_service path) ≡ false
  pub resolved : resolve read regions (fields_or_nil (read path)) ≡ done kept

module _ (read : Text → Option Fields) (regions services : List Text) (path : Text)
    (kept : Fields × Fields) where
  abbrev Stored : Filling → Type 0
  Stored f = FillingKeeps (path_service path) (path_dir path) (some kept.0) f

  fill_read-Keeps :
      (secrets : Option Fields) (f : Filling)
      → Resolves read regions services path kept
      → NoPlain f.data_map
      → Ensures Stored (fill_read read regions true true path secrets f)
  unfolding fill_dirs
  fill_read-Keeps none f w h = tt
  fill_read-Keeps (some secrets) f w h =
      let parts = split path (codes "/") in
      Ensures-bind (SameMap f.data_map) Stored (take_values true secrets f)
        (fill_dirs read regions path parts) (take_values-SameMap secrets f.data_map f refl)
        (λ g e.
          fill_parts-Keeps read regions path parts (get_elem? parts 1) (get_elem? parts 2) g kept
            w.has_project w.has_service w.has_dir w.resolved (subst NoPlain (sym e) h))

  fill_path-Keeps :
      (f : Filling)
      → Resolves read regions services path kept
      → NoPlain f.data_map
      → Ensures Stored (fill_path read regions true true services path f)
  unfolding fill_path
  fill_path-Keeps f w h = rw w.wanted (fill_read-Keeps (read path) f w h)

  fill_paths-Keeps :
      (before after : List Text) (f : Filling)
      → Resolves read regions services path kept
      → All (λ q. Apart (path_service path) (path_dir path) (path_service q) (path_dir q)) after
      → NoPlain f.data_map
      → Ensures Stored (fill_paths read regions true true services (before ++ path ∷ after) f)
  unfolding fill_paths
  fill_paths-Keeps [] after f w a h =
      Ensures-bind Stored Stored (fill_path read regions true true services path f)
        (fill_paths read regions true true services after) (fill_path-Keeps f w h)
        (λ g k.
          fill_paths-Put (Keeps (path_service path) (path_dir path) (some kept.0)) read regions
            services after g
            (All-imp
              (λ q b values m j.
                put_files-Keeps_other (path_service path) (path_dir path) (path_service q)
                  (path_dir q) (some kept.0) values m w.not_common b j)
              after a)
            k)
  fill_paths-Keeps (q ∷ before) after f w a h =
      let P : Filling → Type 0 = λ g. NoPlain g.data_map in
      Ensures-bind P Stored (fill_path read regions true true services q f)
        (fill_paths read regions true true services (before ++ path ∷ after))
        (fill_path-Put NoPlain read regions services q f
          (λ values m j. put_files-NoPlain (path_service q) (path_dir q) values m j) h)
        (λ g k. fill_paths-Keeps before after g w a k)

  -- Where the store is filled from paths of which one is resolved, and no later path has its
  -- service and its file, the values that are left of it are found under its service and file.
  pub fill_store-kept :
      (before after : List Text) (cds : ConfigDataStore)
      → Resolves read regions services path kept
      → All (λ q. Apart (path_service path) (path_dir path) (path_service q) (path_dir q)) after
      → fill_store read regions true true services (before ++ path ∷ after) ≡ done cds
      → get_config_values cds (path_service path) (path_dir path) ≡ some kept.0
  unfolding fill_store get_config_values fetch
  fill_store-kept before after cds w a e =
      let P : ConfigDataStore → Type 0 =
        λ c. get_config_values c (path_service path) (path_dir path) ≡ some kept.0 in
      let empty : Filling = record { data_map = []; og_keys = []; value_maps = [] } in
      subst (Ensures P) e (
        Ensures-bind Stored P
          (fill_paths read regions true true services (before ++ path ∷ after) empty)
          (λ f. done record { data_map = f.data_map; regions = regions })
          (fill_paths-Keeps before after empty w a (λ name s p. cc)) (λ f s. s.1))
