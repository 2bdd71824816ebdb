-- ===== src/ConfigStore/Found.antt =====
-- Which values are found in the store after the values of a file have been put into it.
use tierceron.Base.{
  ◌≡◌, ◌≢◌, refl, sym, ap, true, false, Option, none, some, [], ◌∷◌, ◌⊎◌, inl, inr, Bool-cases,
}
use tierceron.ConfigStore.{Slot, plain, files, slot_file}
use tierceron.ConfigStore.Init.{with_file, put_file}
use tierceron.GoMaps.{Map, fetch, store, fetch-store, fetch-store_other}
use tierceron.GoStrings.{Text, text_eq}
use tierceron.GoStrings.Equality.{text_eq_iff, text_eq_refl}
use tierceron.Modifier.Vault.{Fields}
use mathlib.Core.Path.{subst}

-- no text stands under the name of a service
abbrev pub NoPlain : Map Slot → Type 0
NoPlain m = (name s : Text) → fetch name m ≢ some (plain s)

-- the values of a file that are kept for a service
abbrev pub kept_for : Text → Text → Map Slot → Option Fields
kept_for service dir m = slot_file dir (fetch service m)

fetch-store_same :
    (key name : Text) (v : Slot) (m : Map Slot)
    → text_eq key name ≡ true
    → fetch name (store key v m) ≡ some v
fetch-store_same key name v m h =
    subst (λ n. fetch n (store key v m) ≡ some v) ((text_eq_iff key name).0 h) (fetch-store key v m)

store-NoPlain :
    (service : Text) (fs : Map Fields) (m : Map Slot)
    → NoPlain m
    → NoPlain (store service (files fs) m)
store-NoPlain service fs m h name s = elim (Bool-cases (text_eq service name)) [
  | inl e ↦ rw (fetch-store_same service name (files fs) m e) (λ p. cc)
  | inr e ↦ rw (fetch-store_other service name (files fs) m e) (h name s)
]

with_file-NoPlain :
    (service dir : Text) (v : Fields) (m : Map Slot) (o : Option Slot)
    → NoPlain m
    → NoPlain (with_file service dir v m o)
with_file-NoPlain service dir v m none h = store-NoPlain service ((dir, v) ∷ []) m h
with_file-NoPlain service dir v m (some (files fs)) h = store-NoPlain service (store dir v fs) m h
with_file-NoPlain service dir v m (some (plain s)) h = h

pub put_file-NoPlain :
    (service dir : Text) (v : Fields) (m : Map Slot)
    → NoPlain m
    → NoPlain (put_file service dir v m)
unfolding put_file
put_file-NoPlain service dir v m h = with_file-NoPlain service dir v m (fetch service m) h

with_file-kept :
    (service dir : Text) (v : Fields) (m : Map Slot) (o : Option Slot)
    → ((s : Text) → o ≢ some (plain s))
    → kept_for service dir (with_file service dir v m o) ≡ some v
unfolding fetch
with_file-kept service dir v m none h =
    rw (fetch-store service (files ((dir, v) ∷ [])) m, text_eq_refl dir) refl
with_file-kept service dir v m (some (files fs)) h =
    rw (fetch-store service (files (store dir v fs)) m) (fetch-store dir v fs)
with_file-kept service dir v m (some (plain s)) h = absurd (h s refl)

-- the values that are put are found
pub put_file-kept :
    (service dir : Text) (v : Fields) (m : Map Slot)
    → NoPlain m
    → kept_for service dir (put_file service dir v m) ≡ some v
unfolding put_file
put_file-kept service dir v m h = with_file-kept service dir v m (fetch service m) (h service)

-- one of another service, or with another file
abbrev pub Apart : Text → Text → Text → Text → Type 0
Apart service dir other_service other_dir =
    (text_eq other_service service ≡ false) ⊎ (text_eq other_dir dir ≡ false)

other_service-kept :
    (service dir other_service other_dir : Text) (v : Fields) (m : Map Slot) (o : Option Slot)
    → text_eq other_service service ≡ false
    → kept_for service dir (with_file other_service other_dir v m o) ≡ kept_for service dir m
other_service-kept service dir s d v m none h =
    ap (slot_file dir) (fetch-store_other s service (files ((d, v) ∷ [])) m h)
other_service-kept service dir s d v m (some (files fs)) h =
    ap (slot_file dir) (fetch-store_other s service (files (store d v fs)) m h)
other_service-kept service dir s d v m (some (plain t)) h = refl

other_dir-kept :
    (service dir other_dir : Text) (v : Fields) (m : Map Slot) (o : Option Slot)
    → fetch service m ≡ o
    → text_eq other_dir dir ≡ false
    → kept_for service dir (with_file service other_dir v m o) ≡ kept_for service dir m
unfolding fetch
other_dir-kept service dir d v m none e h =
    rw (fetch-store service (files ((d, v) ∷ [])) m, e, h) refl
other_dir-kept service dir d v m (some (files fs)) e h =
    rw (fetch-store service (files (store d v fs)) m, e) (fetch-store_other d dir v fs h)
other_dir-kept service dir d v m (some (plain t)) e h = refl

-- the values of another file are found as before
pub put_file-kept_other :
    (service dir other_service other_dir : Text) (v : Fields) (m : Map Slot)
    → Apart service dir other_service other_dir
    → kept_for service dir (put_file other_service other_dir v m) ≡ kept_for service dir m
unfolding put_file
put_file-kept_other service dir s d v m h = elim (Bool-cases (text_eq s service)) [
  | inr e ↦ other_service-kept service dir s d v m (fetch s m) e
  | inl e ↦
      let same : s ≡ service = (text_eq_iff s service).0 e in
      subst (λ t. kept_for service dir (put_file t d v m) ≡ kept_for service dir m) (sym same)
        (elim h [ inl n ↦ cc | inr n ↦ other_dir-kept service dir d v m (fetch service m) refl n ])
]
