-- ===== src/ConfigStore/Links.antt =====
-- The values of one path in `Init` of pkg/cli/trcconfigbase/utils/dataStorePopulator.go: a value
-- that is a link names a bucket and a key there, and is replaced by what it leads to. `read` is
-- `mod.ReadData` with `none` for an error; while the store is filled it answers a path in one way.
use tierceron.Base.{Option, none, some, List, [], ◌∷◌, ◌++◌, if◌then◌else◌}
use tierceron.GoMaps.{Map, fetch, store, discard, keys_of}
use tierceron.GoStrings.{Text, codes, text_eq, replace_all}
use tierceron.Modifier.ReadData.{read_map_value}
use tierceron.Modifier.Vault.{Value, scalar, items, Scalar, text, Fields}

-- A call that succeeds, that returns an error, or that panics.
pub data Result (A : Type 0) : Type 0 where
  done : A → Result A
  refused : Text → Result A
  panicked : Result A

infixl 5 ◌>>=◌
abbrev pub ◌>>=◌ : {A B : Type 0} → Result A → (A → Result B) → Result B
done a >>= f = f a
refused e >>= f = refused e
panicked >>= f = panicked

-- What the loop over the values keeps.
pub record Resolved : Type 0 where
  pub current : Fields
  pub common_values : Fields
  pub no_value_keys : List Text
  pub buckets : Map Fields

-- `link[0].(string)` and `link[1].(string)`; `none` is a panic.
abbrev pub link_parts : List Scalar → Option (Text × Text)
link_parts (text bucket ∷ text key ∷ rest) = some (bucket, key)
link_parts _ = none

abbrev pub opened : Text → Text → Option Fields → Resolved → Fields × Resolved
opened name bucket none r = ([], record r { no_value_keys = r.no_value_keys ++ name ∷ [] })
opened name bucket (some d) r = (d, record r { buckets = store bucket d r.buckets })

abbrev pub open_with :
    (Text → Option Fields) → Text → Text → Option Fields → Resolved → Fields × Resolved
open_with read name bucket none r = opened name bucket (read bucket) r
open_with read name bucket (some d) r = (d, r)

-- the bucket of a link, which is read once
unfoldable pub open_bucket : (Text → Option Fields) → Text → Text → Resolved → Fields × Resolved
open_bucket read name bucket r = open_with read name bucket (fetch bucket r.buckets) r

abbrev pub or_empty : Option Text → Text
or_empty none = []
or_empty (some v) = v

abbrev pub found_value : Text → Option Text → Resolved → Resolved
found_value name none r = record r { no_value_keys = r.no_value_keys ++ name ∷ [] }
found_value name (some v) r = record r { current = store name (scalar (text v)) r.current }

-- The value of a link: what comes from the common bucket is kept apart.
unfoldable pub put_value : Text → Text → Option Text → Resolved → Resolved
put_value name bucket found r =
    if text_eq bucket (codes "super-secrets/Common")
    then record r { common_values = store name (scalar (text (or_empty found))) r.common_values }
    else found_value name found r

abbrev pub regional : Text → Option Text → Resolved → Resolved
regional name none r = r
regional name (some v) r = record r { current = store name (scalar (text v)) r.current }

-- The loop over the regions.
unfoldable pub put_regions : Fields → Text → Text → List Text → Resolved → Resolved
put_regions d name key [] r = r
put_regions d name key (region ∷ rest) r =
    put_regions d name key rest
      (regional (name ++ (codes "~" ++ region)) (read_map_value d (key ++ (codes "~" ++ region))) r)

-- The value, and then the regions, from a bucket that is open.
unfoldable pub from_bucket : List Text → Text → Text → Text → Fields × Resolved → Resolved
unfolding put_regions put_value
from_bucket regions name bucket key (d, r) =
    put_regions d name key regions (put_value name bucket (read_map_value d key) r)

abbrev pub follow :
    (Text → Option Fields) → List Text → Text → Option (Text × Text) → Resolved → Result Resolved
follow read regions name none r = panicked
follow read regions name (some (bucket, key)) r =
    done (from_bucket regions name bucket key (open_bucket read name bucket r))

-- one value
unfoldable pub resolve_value :
    (Text → Option Fields) → List Text → Text → Option Value → Resolved → Result Resolved
unfolding from_bucket open_bucket
resolve_value read regions name (some (items link)) r = follow read regions name (link_parts link) r
resolve_value read regions name _ r = done r

-- The loop over the names; a name that a region adds has a text, at which there is nothing to do.
unfoldable pub resolve_values :
    (Text → Option Fields) → List Text → List Text → Resolved → Result Resolved
unfolding resolve_value
resolve_values read regions [] r = done r
resolve_values read regions (name ∷ rest) r =
    resolve_value read regions name (fetch name r.current) r >>= resolve_values read regions rest

unfoldable pub discard_all : List Text → Fields → Fields
discard_all [] m = m
discard_all (name ∷ rest) m = discard_all rest (discard name m)

-- the values with their names scrubbed: a later one of the same name stands
unfoldable pub scrub : Fields → Fields → Fields
scrub [] scrubbed = scrubbed
scrub ((k, v) ∷ rest) scrubbed =
    scrub rest (store (replace_all k (codes ".") (codes "_")) v scrubbed)

-- the values that are left for the file, and those that are common
unfoldable pub kept_values : Resolved → Fields × Fields
unfolding discard_all
kept_values r =
    (discard_all (keys_of r.common_values) (discard_all r.no_value_keys r.current), r.common_values)

unfoldable pub resolve : (Text → Option Fields) → List Text → Fields → Result (Fields × Fields)
unfolding resolve_values scrub kept_values
resolve read regions values =
    let scrubbed = scrub values [] in
    resolve_values read regions (keys_of scrubbed)
      record { current = scrubbed; common_values = []; no_value_keys = []; buckets = [] }
    >>= λ r. done (kept_values r)
