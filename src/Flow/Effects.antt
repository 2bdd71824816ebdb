-- ===== src/Flow/Effects.antt =====
-- What a flow is set to do, what it calls, and what it has done, for `vaultPersistPushRemoteChanges`
-- of atrium/trcflow/core/context_helper.go.
use tierceron.Base.{ℕ, Bool, Option, none, some, List, [], ◌∷◌, ◌++◌}
use tierceron.GoStrings.{Text, codes}
use tierceron.ChangeTracking.{Cell, text, other, Row}
use tierceron.Flow.{RowMap, Found}

-- The names of a flow, and what it is set to do. `has_push` and `has_alerts` tell whether there is
-- a function that pushes and a channel of alerts.
pub record Settings : Type 0 where
  pub database : Text
  pub table : Text
  pub change_table : Text
  pub source : Text
  pub identity : Text
  pub index_names : List Text
  pub is_stopped : Bool
  pub sync_mode : Text
  pub read_only : Bool
  pub has_push : Bool
  pub push_enabled : Bool
  pub has_alerts : Bool

-- What a flow has done: a query, a row pushed to the remote data source, a path deleted from the
-- vault, a row seeded into it with whether that has failed, and an alert sent.
pub data Effect : Type 0 where
  asked : Text → Effect
  pushed : RowMap → Effect
  deleted : Text → Effect
  seeded : Text → RowMap → Bool → Effect
  alerted : Text → Effect

-- What the flow calls, each with the number of effects so far: `trcdb.Query`, the function that
-- finds the path of a row with whether that is an error, and `SeedVaultById` with whether it fails.
pub record Calls : Type 0 where
  pub find : ℕ → Text → Option Found
  pub index_path : ℕ → List Text → RowMap → Text × Bool
  pub seed : ℕ → Text → RowMap → Bool
  pub synced_tables : List Text

abbrev pub add : Effect → List Effect → List Effect
add e s = s ++ e ∷ []

-- the value nil of `changedId`, which is never assigned
abbrev pub nil_id : Cell
nil_id = other (codes "%!s(<nil>)") (codes "%!d(%!s(<nil>))")

abbrev pub empty_columns : List Text → RowMap
empty_columns [] = []
empty_columns (c ∷ columns) = (c, text []) ∷ empty_columns columns

-- the row that tells the remote data source of a deletion
abbrev pub deletion : List Text → RowMap
deletion columns =
    (codes "Deleted", text (codes "true")) ∷ (codes "changedId", nil_id) ∷ empty_columns columns

abbrev cons_value : Text → Cell → Option RowMap → Option RowMap
cons_value name v none = none
cons_value name (text []) (some m) = some m
cons_value name v (some m) = some ((name, v) ∷ m)

-- The index columns of a changed row, empty texts passed over; `none` is an index out of range.
unfoldable pub index_map : List Text → Row → Option RowMap
index_map [] entry = some []
index_map (name ∷ names) [] = none
index_map (name ∷ names) (v ∷ entry) = cons_value name v (index_map names entry)

abbrev cons_column : Text → Cell → Option RowMap → Option RowMap
cons_column name v none = none
cons_column name v (some m) = some ((name, v) ∷ m)

-- The columns of a row; `none` is an index out of range.
unfoldable pub row_map : List Text → Row → Option RowMap
row_map [] row = some []
row_map (c ∷ columns) [] = none
row_map (c ∷ columns) (v ∷ row) = cons_column c v (row_map columns row)
