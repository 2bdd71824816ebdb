-- ===== src/ChangeTracking/Triggers.antt =====
-- The triggers that keep the tables of changed rows, and the lock of the tables.
pub mod Once
use tierceron.Base.{
  ℕ, Bool, true, false, not, ◌||◌, Option, none, some, List, [], ◌∷◌, ◌++◌, if◌then◌else◌,
}
use tierceron.GoStrings.{Text, codes, text_eq}
use tierceron.ChangeTracking.{concat}

abbrev trigger_statement : Text → Text → Text → Text → Text → Text → Text
trigger_statement name event database table version column = concat (
    codes "CREATE TRIGGER "
    ∷ name
    ∷ codes " AFTER "
    ∷ event
    ∷ codes " ON "
    ∷ database
    ∷ codes "."
    ∷ table
    ∷ codes " FOR EACH ROW BEGIN INSERT IGNORE INTO "
    ∷ database
    ∷ codes "."
    ∷ table
    ∷ codes "_Changes VALUES ("
    ∷ version
    ∷ codes "."
    ∷ column
    ∷ codes ", current_timestamp()); END;"
    ∷ [])

-- `getUpdateTrigger`
unfoldable pub get_update_trigger : Text → Text → Text → Text
unfolding concat
get_update_trigger database table column =
    trigger_statement (codes "tcUpdateTrigger") (codes "UPDATE") database table (codes "new") column

-- `getInsertTrigger`
unfoldable pub get_insert_trigger : Text → Text → Text → Text
unfolding concat
get_insert_trigger database table column =
    trigger_statement (codes "tcInsertTrigger") (codes "INSERT") database table (codes "new") column

-- `getDeleteTrigger`
unfoldable pub get_delete_trigger : Text → Text → Text → Text
unfolding concat
get_delete_trigger database table column =
    trigger_statement (codes "tcDeleteTrigger") (codes "DELETE") database table (codes "old") column

-- A trigger's name and statement.
abbrev pub Trigger : Type 0
Trigger = Text × Text

-- Whether the lock of the tables is held, the triggers of the database, and whether the database
-- answers `GetTriggers` with an error.
pub record Tables : Type 0 where
  pub locked : Bool
  pub triggers : List Trigger
  pub refuses : Bool

-- A call goes on, waits for ever, or ends the process: the unlock of a lock that is free does.
pub data Created : Type 0 where
  created : Tables → Created
  fatal : Created
  blocked : Created

abbrev pub trigger_name : Text → Text → Text
trigger_name kind table = codes "tc" ++ (kind ++ (codes "Trigger_" ++ table))

-- the loop over the triggers that are there
unfoldable pub trigger_exists : Text → List Trigger → Bool
unfolding text_eq
trigger_exists table [] = false
trigger_exists table ((name, statement) ∷ rest) =
    (text_eq name (trigger_name (codes "Insert") table)
      || (text_eq name (trigger_name (codes "Update") table)
          || text_eq name (trigger_name (codes "Delete") table)))
    || trigger_exists table rest

-- `Unlock`
abbrev pub unlock : Tables → Created
unlock t = if t.locked then created (record t { locked = false }) else fatal

abbrev pub and_then : Created → (Tables → Created) → Created
and_then (created t) k = k t
and_then fatal k = fatal
and_then blocked k = blocked

-- The triggers that `GetTriggers` gives, which are none where there is an error.
abbrev pub existing : Tables → List Trigger
existing t = if t.refuses then [] else t.triggers

-- the three triggers of a table, in the order in which they are made
abbrev pub new_triggers : Text → Text → Text → Text → List Trigger
new_triggers table update insert delete =
    (trigger_name (codes "Update") table, update)
    ∷ (trigger_name (codes "Insert") table, insert)
    ∷ (trigger_name (codes "Delete") table, delete)
    ∷ []

-- The body that the three functions share, behind the call of `GetTriggers`. The code ignores the
-- error of `CreateTrigger`, which is taken to succeed here.
abbrev pub add_triggers : Text → Text → Text → Text → Tables → Tables
add_triggers table update insert delete t =
    if trigger_exists table (existing t)
    then t
    else record t { triggers = t.triggers ++ new_triggers table update insert delete }

-- On an error of `GetTriggers` the lock is given back, and the function goes on.
abbrev pub unlock_on_error : Tables → Created
unlock_on_error t = if t.refuses then unlock t else created t

-- `CreateTableTriggers`
unfoldable pub create_table_triggers : Text → Text → Text → Tables → Created
create_table_triggers database table column t =
    let update = get_update_trigger database table column in
    let insert = get_insert_trigger database table column in
    let delete = get_delete_trigger database table column in
    let run =
      and_then (unlock_on_error (record t { locked = true }))
        (λ s. unlock (add_triggers table update insert delete s)) in
    if t.locked then blocked else run

-- `CreateCompositeTableTriggers` and `CreateDataFlowTableTriggers`, which differ in the statements
-- that they are given; neither takes the lock.
unfoldable pub create_given_triggers : Text → Text → Text → Text → Tables → Created
create_given_triggers table update insert delete t =
    and_then (unlock_on_error t) (λ s. created (add_triggers table update insert delete s))
