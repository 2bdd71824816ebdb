-- ===== src/Flow.antt =====
-- atrium/trcflow/core: a flow keeps a table in step with the vault and with a remote data source.
pub mod Rows
pub mod Calls
pub mod Effects
pub mod Persist
pub mod Cycle
pub mod Tables
mod Examples
use tierceron.Base.{Bool, true, false, Option, none, some, List, [], ◌∷◌}
use tierceron.GoStrings.{Text}
use tierceron.ChangeTracking.{Cell, Row}

-- `map[string]interface{}` of the columns of a row
abbrev pub RowMap : Type 0
RowMap = List (Text × Cell)

-- what a query finds: its columns and its rows
abbrev pub Found : Type 0
Found = List Text × List Row
