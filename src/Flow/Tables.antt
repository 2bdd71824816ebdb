-- ===== src/Flow/Tables.antt =====
-- The tables and the triggers of a flow machine in atrium/trcflow/core/context.go: the tables of
-- changes that `Init` makes, the channels that a change is told on, and the triggers that
-- `seedTrcDbCycle` takes away while a table is filled. That a statement of the database fails is
-- a parameter.
pub mod Kept
use tierceron.Base.{
  ℕ, suc, Bool, true, false, not, ◌&&◌, ◌||◌, Option, none, some, List, [], ◌∷◌, ◌++◌,
  if◌then◌else◌,
}
use tierceron.GoStrings.{Text, codes, text_eq, has_suffix, is_empty}
use tierceron.GoStrings.Equality.{mem_text}
use tierceron.ChangeTracking.Triggers.{Trigger}
use tierceron.Modifier.Environment.{to_lower}

-- `GetTableInsensitive`: whether there is a table of the name, in any case
unfoldable pub has_table : Text → List Text → Bool
has_table name [] = false
has_table name (table ∷ tables) = text_eq (to_lower table) (to_lower name) || has_table name tables

abbrev change_table_of : Text → Text
change_table_of table = table ++ codes "_Changes"

abbrev and_then : Option (List Text) → (List Text → Option (List Text)) → Option (List Text)
and_then none k = none
and_then (some tables) k = k tables

-- The loop of `Init` over the names of tables; `none` is the error of a table that is not made.
unfoldable pub create_change_tables :
    (fails : Text → Bool) (names tables : List Text) → Option (List Text)
create_change_tables fails [] tables = some tables
create_change_tables fails (name ∷ names) tables =
    let change = change_table_of name in
    let made = if fails change then none else some (tables ++ change ∷ []) in
    and_then (if has_table change tables then some tables else made)
      (create_change_tables fails names)

-- `TriggerChangeChannel`: over the channels of each machine, the one that is told of the change
unfoldable pub trigger_change_channel : Text → List (List Text) → Option ℕ
trigger_change_channel table [] = none
trigger_change_channel table (channels ∷ machines) =
    let rest = later (trigger_change_channel table machines) in
    if mem_text table channels then some 0 else rest
  where
    later : Option ℕ → Option ℕ
    later none = none
    later (some n) = some (suc n)

-- whether a trigger is taken away: it is one of the flow's, and the database lets it go
abbrev pub taken : Text → (Trigger → Bool) → Trigger → Bool
taken flow drop_fails t = has_suffix t.0 (codes "_" ++ flow) && not (drop_fails t)

-- The loop over the triggers: those that stay, and those that are taken away.
unfoldable pub remove_triggers :
    Text → (Trigger → Bool) → List Trigger → List Trigger × List Trigger
remove_triggers flow drop_fails [] = ([], [])
remove_triggers flow drop_fails (t ∷ triggers) =
    let (kept, removed) = remove_triggers flow drop_fails triggers in
    if taken flow drop_fails t then (kept, t ∷ removed) else (t ∷ kept, removed)

-- The loop that makes the triggers again; an error is passed over.
unfoldable pub restore_triggers : (Trigger → Bool) → List Trigger → List Trigger → List Trigger
restore_triggers create_fails [] triggers = triggers
restore_triggers create_fails (t ∷ removed) triggers =
    restore_triggers create_fails removed (if create_fails t then triggers else triggers ++ t ∷ [])

-- The triggers while the table is filled and after `seedTrcDbCycle`; `refuses` tells whether
-- `GetTriggers` is answered with an error.
unfoldable pub seed_trc_db_cycle :
    (refuses : Bool) (drop_fails create_fails : Trigger → Bool)
    → Text
    → List Trigger
    → List Trigger × List Trigger
seed_trc_db_cycle refuses drop_fails create_fails flow triggers =
    let (kept, removed) = remove_triggers flow drop_fails triggers in
    if refuses then (triggers, triggers) else (kept, restore_triggers create_fails removed kept)
