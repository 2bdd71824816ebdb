-- ===== src/ConfigStore/Stored.antt =====
-- What `Init` leaves in the store for each path, in the mode for secrets and with `useDirs`, as the
-- templates are filled.
use tierceron.Base.{
  ◌≡◌, refl, sym, Bool, true, false, Option, none, some, List, [], ◌∷◌, if_cases, All, get_elem?,
}
use tierceron.ConfigStore.{Slot}
use tierceron.ConfigStore.Init.{
  Filling, take_value, take_values, put_files, fields_or_nil, fill_file, fill_dirs, fill_wanted,
  fill_read, fill_parts, take_link, fill_path, fill_paths, all_texts,
}
use tierceron.ConfigStore.Links.{Result, done, refused, panicked, ◌>>=◌, resolve, or_empty}
use tierceron.ConfigStore.Selection.{found_wanted, file_dir}
use tierceron.GoMaps.{Map}
use tierceron.GoStrings.{Text, codes, is_empty, split}
use tierceron.Modifier.Vault.{Value, scalar, items, text, Fields}
use mathlib.Core.Path.{subst}

abbrev pub Ensures : {A : Type 0} → (A → Type 0) → Result A → Type 0
Ensures P (done a) = P a
Ensures P (refused e) = Unit
Ensures P panicked = Unit

pub Ensures-bind :
    {A B : Type 0} (P : A → Type 0) (Q : B → Type 0) (m : Result A) (k : A → Result B)
    → Ensures P m
    → ((a : A) → P a → Ensures Q (k a))
    → Ensures Q (m >>= k)
Ensures-bind P Q (done a) k h j = j a h
Ensures-bind P Q (refused e) k h j = tt
Ensures-bind P Q panicked k h j = tt

pub Ensures-all : {A : Type 0} (P : A → Type 0) (m : Result A) → ((a : A) → P a) → Ensures P m
Ensures-all P (done a) h = h a
Ensures-all P (refused e) h = tt
Ensures-all P panicked h = tt

pub Ensures-both :
    {A : Type 0} (P Q : A → Type 0) (m : Result A)
    → Ensures P m
    → Ensures Q m
    → Ensures (λ a. P a × Q a) m
Ensures-both P Q (done a) h k = (h, k)
Ensures-both P Q (refused e) h k = tt
Ensures-both P Q panicked h k = tt

abbrev pub SameMap : Map Slot → Filling → Type 0
SameMap m f = f.data_map ≡ m

take_link-SameMap :
    (key : Text) (o : Option (List Text)) (m : Map Slot) (f : Filling)
    → SameMap m f
    → Ensures (SameMap m) (take_link key o f)
take_link-SameMap key none m f h = tt
take_link-SameMap key (some ts) m f h = h

take_value-SameMap :
    (key : Text) (v : Value) (m : Map Slot) (f : Filling)
    → SameMap m f
    → Ensures (SameMap m) (take_value true key v f)
unfolding take_value
take_value-SameMap key (scalar (text s)) m f h = h
take_value-SameMap key (scalar _) m f h = tt
take_value-SameMap key (items link) m f h = take_link-SameMap key (all_texts link) m f h

pub take_values-SameMap :
    (secrets : Fields) (m : Map Slot) (f : Filling)
    → SameMap m f
    → Ensures (SameMap m) (take_values true secrets f)
unfolding take_values
take_values-SameMap [] m f h = h
take_values-SameMap ((key, v) ∷ rest) m f h =
    Ensures-bind (SameMap m) (SameMap m) (take_value true key v f) (take_values true rest)
      (take_value-SameMap key v m f h) (λ g k. take_values-SameMap rest m g k)

-- A predicate on the map of the store that putting the values of a file keeps.
abbrev pub Put : (Map Slot → Type 0) → Text → Text → Type 0
Put P s d = (values : Fields × Fields) (m : Map Slot) → P m → P (put_files s d values m)

-- the names under which the values of a path are kept
abbrev pub path_service : Text → Text
path_service path = or_empty (get_elem? (split path (codes "/")) 2)

abbrev pub path_project : Text → Text
path_project path = or_empty (get_elem? (split path (codes "/")) 1)

abbrev pub path_dir : Text → Text
path_dir path = file_dir (split path (codes "/"))

module _ (P : Map Slot → Type 0) (read : Text → Option Fields) (regions : List Text) where
  abbrev Holds : Filling → Type 0
  Holds f = P f.data_map

  fill_file-Put :
      (path project s d : Text) (f : Filling)
      → Put P s d
      → Holds f
      → Ensures Holds (fill_file read regions path project s d f)
  unfolding fill_file
  fill_file-Put path project s d f c k =
      let Q : Result Filling → Type 0 = Ensures Holds in
      let found = resolve read regions (fields_or_nil (read path)) in
      if_cases Q (is_empty d) (done f) _ (λ e. k)
        (λ e.
          if_cases Q (is_empty s) (done f) _ (λ e. k)
            (λ e.
              if_cases Q (is_empty project) (done f) _ (λ e. k)
                (λ e.
                  Ensures-bind (λ x. Unit {0}) Holds found
                    (λ x. done record f { data_map = put_files s d x f.data_map })
                    (Ensures-all (λ x. Unit {0}) found (λ x. tt)) (λ x u. c x f.data_map k))))

  fill_parts-Put :
      (path : Text) (parts : List Text) (project s : Option Text) (f : Filling)
      → Put P (or_empty s) (file_dir parts)
      → Holds f
      → Ensures Holds (fill_parts read regions path parts project s f)
  fill_parts-Put path parts (some p) (some s) f c k = fill_file-Put path p s (file_dir parts) f c k
  fill_parts-Put path parts none (some s) f c k = tt
  fill_parts-Put path parts (some p) none f c k = tt
  fill_parts-Put path parts none none f c k = tt

  fill_read-Put :
      (path : Text) (secrets : Option Fields) (f : Filling)
      → Put P (path_service path) (path_dir path)
      → Holds f
      → Ensures Holds (fill_read read regions true true path secrets f)
  unfolding fill_dirs
  fill_read-Put path none f c k = tt
  fill_read-Put path (some secrets) f c k =
      let parts = split path (codes "/") in
      Ensures-bind (SameMap f.data_map) Holds (take_values true secrets f)
        (fill_dirs read regions path parts) (take_values-SameMap secrets f.data_map f refl)
        (λ g e.
          fill_parts-Put path parts (get_elem? parts 1) (get_elem? parts 2) g c (subst P (sym e) k))

  fill_wanted-Put :
      (path : Text) (wanted : Option Bool) (f : Filling)
      → Put P (path_service path) (path_dir path)
      → Holds f
      → Ensures Holds (fill_wanted read regions true true path wanted f)
  fill_wanted-Put path none f c k = tt
  fill_wanted-Put path (some false) f c k = k
  fill_wanted-Put path (some true) f c k = fill_read-Put path (read path) f c k

  pub fill_path-Put :
      (services : List Text) (path : Text) (f : Filling)
      → Put P (path_service path) (path_dir path)
      → Holds f
      → Ensures Holds (fill_path read regions true true services path f)
  unfolding fill_path
  fill_path-Put services path f c k =
      fill_wanted-Put path (found_wanted (split path (codes "/")) services) f c k

  pub fill_paths-Put :
      (services paths : List Text) (f : Filling)
      → All (λ path. Put P (path_service path) (path_dir path)) paths
      → Holds f
      → Ensures Holds (fill_paths read regions true true services paths f)
  unfolding fill_paths
  fill_paths-Put services [] f c k = k
  fill_paths-Put services (path ∷ rest) f c k =
      Ensures-bind Holds Holds (fill_path read regions true true services path f)
        (fill_paths read regions true true services rest) (fill_path-Put services path f c.0 k)
        (λ g j. fill_paths-Put services rest g c.1 j)
