-- ===== src/Flow/Examples.antt =====
-- A flow with one changed row, and with the index columns in an order that the first call turns.
use tierceron.Base.{zero, suc, pos, ◌≡◌, refl, true, false, none, some, List, [], ◌∷◌}
use tierceron.GoStrings.{codes, text_eq, contains, has_suffix}
use tierceron.ChangeTracking.{text}
use tierceron.ChangeTracking.Queries.{get_statistic_changed_by_id_query, remove_element_from_slice}
use tierceron.ChangeTracking.Removal.{
  Engine, Process, remove_changes, remove_changed_table_entries, remove_entries,
}
use mathlib.Core.List.{Permᴰ}
use tierceron.Base.{All}
use tierceron.ChangeTracking.Triggers.{Trigger}
use tierceron.GoStrings.{has_suffix}
use tierceron.Flow.Tables.{taken, seed_trc_db_cycle, remove_triggers, restore_triggers}
use tierceron.Flow.Tables.Kept.{seed_trc_db_cycle-Perm}
use tierceron.Flow.{RowMap}
use tierceron.Flow.Effects.{Settings, Calls, Effect, row_map}
use tierceron.Flow.Persist.{
  persist_entries, persist_entry, rotated, vault_persist_push_remote_changes, persist_found,
  seed_row, send_alert, delete_path,
}
use tierceron.Flow.Cycle.{
  changed, noticed, done, Cycling, stuck, seed_vault_cycle, cycle_event, persist_once, FlowContext,
  sync_table_cycle, state_update, log_line, cycle_start,
}
use tierceron.Flow.Cycle.Waiting.{CourseSound, seed_vault_cycle-Sound}
use tierceron.Flow.Persist.Allowed.{EffectsAllowed, persist-EffectsAllowed}
use tierceron.Flow.Persist.Seeded.{Stored, seeds, persist_entries-Seeds}

abbrev settings : Settings
settings = record {
  database = codes "Db";
  table = codes "Tenant";
  change_table = codes "Tenant_Changes";
  source = codes "Hive";
  identity = codes "id";
  index_names = codes "id" ∷ [];
  is_stopped = false;
  sync_mode = codes "push";
  read_only = false;
  has_push = true;
  push_enabled = true;
  has_alerts = false;
}

abbrev one_change : Engine
one_change zero q = some ((text (codes "7") ∷ []) ∷ [])
one_change (suc k) q = some []

abbrev unlocked : Process
unlocked = record { locked = false; queries = [] }

abbrev calls : Calls
calls = record {
  find = λ k q. some (codes "id" ∷ [], (text (codes "7") ∷ []) ∷ []);
  index_path = λ k names m. (codes "Index/Hive/7", false);
  seed = λ k path m. false;
  synced_tables = codes "Tenant" ∷ [];
}

abbrev columns : RowMap
columns = (codes "id", text (codes "7")) ∷ []

persist-EffectsAllowed_example :
    EffectsAllowed settings (vault_persist_push_remote_changes one_change calls settings unlocked)
persist-EffectsAllowed_example = persist-EffectsAllowed one_change calls settings unlocked

stored : Stored calls settings (text (codes "7") ∷ []) (codes "Index/Hive/7") columns
unfolding get_statistic_changed_by_id_query row_map
stored = record {
  query = codes "SELECT * FROM Db.Tenant WHERE id='7'";
  columns = codes "id" ∷ [];
  row = text (codes "7") ∷ [];
  rows = [];
  queried = refl;
  found = λ k. refl;
  mapped = refl;
  indexed = λ k. refl;
  named = refl;
  succeeds = λ k. refl;
}

persist_entries-Seeds_example :
    (t : List Effect) × (persist_entries calls settings ((text (codes "7") ∷ []) ∷ []) [] ≡ some t)
    × (seeds t ≡ (codes "Index/Hive/7", columns) ∷ [])
unfolding seeds
persist_entries-Seeds_example =
    persist_entries-Seeds calls settings ((text (codes "7") ∷ []) ∷ [])
      ((codes "Index/Hive/7", columns) ∷ []) [] refl (stored, tt)

-- The first changed row of a pair of index columns leaves them in the other order, in which the
-- next call reads the changed rows, so that a value of `other` is looked up as an `id`.
names_turned :
    rotated
      (codes "id")
      (codes "id" ∷ codes "other" ∷ [])
      (text (codes "7") ∷ text (codes "x") ∷ [])
    ≡ (codes "other" ∷ codes "id" ∷ [], text (codes "x") ∷ text (codes "7") ∷ [])
unfolding rotated remove_element_from_slice text_eq
names_turned = refl

looked_up :
    get_statistic_changed_by_id_query
      (codes "Db")
      (codes "Pair")
      (codes "id")
      (codes "other" ∷ codes "id" ∷ [])
      (text (codes "x") ∷ text (codes "7") ∷ [])
    ≡ some (codes "SELECT * FROM Db.Pair WHERE id='x'")
unfolding get_statistic_changed_by_id_query remove_element_from_slice text_eq
looked_up = refl

-- A row that cannot be seeded is a panic.
failing : Calls
failing = record calls { seed = λ k path m. true }

seeding_fails : persist_entries failing settings ((text (codes "7") ∷ []) ∷ []) [] ≡ none
unfolding failing persist_entries persist_entry persist_found row_map seed_row send_alert
    get_statistic_changed_by_id_query
seeding_fails = refl

deleted_at : delete_path settings (codes "/7") ≡ codes "Index/Hive/7/Tenant"
unfolding delete_path contains has_suffix
deleted_at = refl

abbrev failing_engine : Engine
failing_engine k q = none

abbrev start : Cycling
start = record {
  settings = settings;
  process = unlocked;
  restart = false;
  calls = 0;
  failures = 0;
  effects = [];
}

seed_vault_cycle-Sound_example :
    CourseSound
      (seed_vault_cycle (λ k. failing_engine) (λ k. calls) (changed ∷ noticed ∷ done ∷ []) start)
unfolding text_eq
seed_vault_cycle-Sound_example =
    seed_vault_cycle-Sound (λ k. failing_engine) (λ k. calls) (changed ∷ noticed ∷ done ∷ []) start
      (refl, tt) refl

-- The second call of that cycle waits for ever.
second_waits :
    (c : Cycling) × (seed_vault_cycle
        (λ k. failing_engine)
        (λ k. calls)
        (changed ∷ noticed ∷ done ∷ [])
        start
      ≡ stuck c)
unfolding seed_vault_cycle cycle_event persist_once vault_persist_push_remote_changes remove_changes
    remove_changed_table_entries remove_entries
second_waits = (_, refl)

abbrev restarted : FlowContext
restarted = record {
  flow = codes "Tenant";
  flow_alias = [];
  state = pos 2;
  sync_mode = codes "pullsynccomplete";
  sync_filter = [];
  init = false;
  restart = true;
  has_connection = true;
  has_push = true;
  has_group = false;
}

-- A flow that is restarted is not seeded from the vault again.
not_reloaded :
    (sync_table_cycle restarted).1
    ≡ state_update (codes "Tenant") (codes "2") [] (codes "pullcomplete")
      ∷ log_line (codes "Flow ready for use: Tenant")
      ∷ cycle_start true
      ∷ []
unfolding sync_table_cycle text_eq
not_reloaded = refl

abbrev two_triggers : List Trigger
two_triggers =
    (codes "tcInsertTrigger_Tenant", codes "insert")
    ∷ (codes "tcInsertTrigger_Site", codes "insert")
    ∷ []

seed_trc_db_cycle-Perm_example :
    All
      (λ t. taken (codes "Tenant") (λ x. false) t ≡ false)
      (seed_trc_db_cycle false (λ x. false) (λ x. false) (codes "Tenant") two_triggers).0
    × Permᴰ
        (seed_trc_db_cycle false (λ x. false) (λ x. false) (codes "Tenant") two_triggers).1
        two_triggers
seed_trc_db_cycle-Perm_example =
    seed_trc_db_cycle-Perm (λ x. false) (λ x. false) (codes "Tenant") two_triggers
      (refl, (refl, tt))

-- A trigger that cannot be made again is lost without an error.
trigger_lost : seed_trc_db_cycle false (λ x. false) (λ x. true) (codes "Tenant") two_triggers ≡ (
  (codes "tcInsertTrigger_Site", codes "insert") ∷ [],
  (codes "tcInsertTrigger_Site", codes "insert") ∷ [],
)
unfolding seed_trc_db_cycle remove_triggers restore_triggers has_suffix text_eq
trigger_lost = refl
