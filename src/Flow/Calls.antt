-- ===== src/Flow/Calls.antt =====
-- `CallDBQuery` of atrium/trcflow/core/context.go: a statement of a flow, the row that it leaves in
-- a table of changes, and the flows that are told of it. The database is a parameter, a function
-- from the number of statements so far and a statement to a cursor, or to an error.
pub mod Announced
pub mod Told
mod Examples
use tierceron.Base.{
  ℕ, Bool, true, false, not, ◌&&◌, ◌||◌, Option, none, some, List, [], ◌∷◌, ◌++◌, length,
  if◌then◌else◌,
}
use tierceron.GoStrings.{Text, codes, text_eq, is_empty}
use tierceron.GoStrings.Equality.{mem_text}
use tierceron.ChangeTracking.{Row, concat}
use tierceron.Flow.Rows.{Cursor, Answer, table_of, matrix_of, query, query_with_bindings}

-- a statement with its bindings, where it has any
pub record Statement : Type 0 where
  pub code : Text
  pub bindings : Option (List (Text × Text))

abbrev pub Database : Type 0
Database = ℕ → Statement → Option Cursor

-- `queryMap["TrcChangeId"]`: missing or of another type, a text, or a list
pub data ChangeId : Type 0 where
  missing : ChangeId
  one : Text → ChangeId
  many : List Text → ChangeId

-- `queryMap`, with `TrcChangeCol` where it is a list
pub record QueryMap : Type 0 where
  pub code : Text
  pub change_id : ChangeId
  pub change_columns : Option (List Text)

-- What a call takes from its flow and from the machine: `additional` is
-- `GetAdditionalFlowsByState`, and `channels` are the flows that have a channel.
pub record Caller : Type 0 where
  pub database_name : Text
  pub change_table : Text
  pub channels : List Text
  pub additional : Text → List Text

-- the statements and the flows told so far
pub record Sent : Type 0 where
  pub statements : List Statement
  pub notified : List Text

abbrev pub sent_statement : Statement → Sent → Sent
sent_statement q s = record s { statements = s.statements ++ q ∷ [] }

abbrev statement : Text → Option (List (Text × Text)) → Statement
statement code bindings = record { code = code; bindings = bindings }

-- the insertion of a changed row under a table of changes, with the names of its values
abbrev insertion : Text → Text → List Text → Text
insertion database table columns = concat (
    codes "INSERT IGNORE INTO "
    ∷ database
    ∷ codes "."
    ∷ table
    ∷ codes " VALUES ("
    ∷ concat columns
    ∷ codes "current_timestamp())"
    ∷ [])

abbrev column : Text → Text
column name = codes ":" ++ (name ++ codes ", ")

abbrev pair_statement : Caller → Text → Text → Option (List Text) → Option Statement
pair_statement c x y (some (a ∷ b ∷ [])) = some (
    statement (insertion c.database_name c.change_table (column a ∷ column b ∷ []))
      (some ((a, x) ∷ (b, y) ∷ [])))
pair_statement c x y _ = none

-- the statement that puts the changed row of a call into a table of changes, where there is one
unfoldable pub change_statement : Caller → QueryMap → Option Statement
change_statement c q = elim q.change_id [
  | missing ↦ none
  | one id ↦ some (
      statement (insertion c.database_name c.change_table (column (codes "id") ∷ []))
        (some ((codes "id", id) ∷ [])))
  | many (x ∷ y ∷ []) ↦ pair_statement c x y q.change_columns
  | many (x ∷ y ∷ z ∷ []) ↦
      let code =
        insertion c.database_name (codes "DataFlowStatistics_Changes") (
          column (codes "flowName") ∷ column (codes "argosId") ∷ column (codes "stateCode") ∷ []) in
      some (
        statement code
          (some ((codes "flowName", x) ∷ (codes "argosId", y) ∷ (codes "stateCode", z) ∷ [])))
  | many _ ↦ none
]

abbrev panics : Option Answer → Bool
panics none = true
panics (some a) = false

-- the changed row; `none` is a panic, and an error is only logged
abbrev pub insert_change : Database → Option Statement → Sent → Option Sent
insert_change db none s = some s
insert_change db (some q) s =
    if panics (query_with_bindings (db (length s.statements) q))
    then none
    else some (sent_statement q s)

-- the flows of a list that have a channel
unfoldable pub known : List Text → List Text → List Text
known channels [] = []
known channels (flow ∷ flows) =
    let rest = known channels flows in if mem_text flow channels then flow ∷ rest else rest

abbrev pub tell : List Text → Sent → Sent
tell flows s = record s { notified = s.notified ++ flows }

abbrev pub tell_all : Caller → List Text → Text → Option Sent → Option Sent
tell_all c flows state none = none
tell_all c flows state (some s) =
    let told = tell (known c.channels flows) s in
    some (if is_empty state then told else tell (known c.channels (c.additional state)) told)

-- what follows a statement that has changed a table
unfoldable pub announce : Database → Caller → QueryMap → List Text → Text → Sent → Option Sent
announce db c q flows state s = tell_all c flows state (insert_change db (change_statement c q) s)

-- Whether a statement counts as a change, its rows, and the name of its table.
pub record Outcome : Type 0 where
  pub changed : Bool
  pub matrix : List Row
  pub table : Text

abbrev outcome : Bool → List Row → Text → Outcome
outcome changed matrix table = record { changed = changed; matrix = matrix; table = table }

abbrev is_ok : Answer → Bool
is_ok a = text_eq (table_of a) (codes "ok")

unfoldable pub insert_outcome : Bool → Answer → Outcome
insert_outcome changed a =
    outcome (if is_empty (matrix_of a) then false else changed) (matrix_of a) []

unfoldable pub bound_insert_outcome : Bool → Answer → Outcome
bound_insert_outcome changed a =
    if is_ok a then outcome true ([] ∷ []) [] else outcome changed [] []

unfoldable pub update_outcome : Bool → Answer → Outcome
update_outcome changed a =
    if is_ok a
    then outcome true (matrix_of a ++ [] ∷ []) (table_of a)
    else outcome (if is_empty (matrix_of a) then false else changed) (matrix_of a) (table_of a)

unfoldable pub bound_update_outcome : Bool → Answer → Outcome
bound_update_outcome changed a =
    if is_ok a then outcome true ([] ∷ []) (table_of a) else outcome changed [] (table_of a)

-- The rows that a call returns, whether it reports a change, and what it has sent; a panic is none.
abbrev pub Called : Type 0
Called = Option (List Row × Bool × Sent)

abbrev pub reported : Bool → Option Sent → Called
reported changed none = none
reported changed (some s) = some ([], changed, s)

-- what a call does once it knows the outcome of its statement
unfoldable pub report : Database → Caller → QueryMap → List Text → Text → Outcome → Sent → Called
report db c q flows state o s =
    if o.changed && (not (is_empty o.matrix) || not (is_empty o.table))
    then reported o.changed (announce db c q flows state s)
    else some ([], o.changed, s)

abbrev pub report_bound :
    (Answer → Outcome) → (Outcome → Sent → Called) → Option Answer → Sent → Called
report_bound f k none s = none
report_bound f k (some a) s = k (f a) s

-- a statement with or without bindings, with the two ways to read its answer
abbrev pub run_statement :
    (plain bound : Answer → Outcome)
    → (Outcome → Sent → Called)
    → Option Cursor
    → Option (List (Text × Text))
    → Sent
    → Called
run_statement plain bound k cursor none s = k (plain (query cursor)) s
run_statement plain bound k cursor (some bindings) s =
    report_bound bound k (query_with_bindings cursor) s

-- `CallDBQuery`
unfoldable pub call_db_query :
    Database
    → Caller
    → QueryMap
    → Option (List (Text × Text))
    → Bool
    → Text
    → List Text
    → Text
    → Sent
    → Called
call_db_query db c q bindings changed operation flows state s =
    let first = statement q.code bindings in
    let unbound = statement q.code none in
    let k = length s.statements in
    let next = report db c q flows state in
    let insert =
      run_statement (insert_outcome changed) (bound_insert_outcome changed) next (db k first)
        bindings (sent_statement first s) in
    let update =
      run_statement (update_outcome changed) (bound_update_outcome changed) next (db k first)
        bindings (sent_statement first s) in
    if is_empty q.code
    then some ([], false, s)
    else if text_eq operation (codes "INSERT")
    then insert
    else if text_eq operation (codes "DELETE") || text_eq operation (codes "UPDATE")
    then update
    else if text_eq operation (codes "SELECT")
    then some (matrix_of (query (db k unbound)), changed, sent_statement unbound s)
    else some ([], changed, s)
