-- ===== src/Flow/Cycle.antt =====
-- The cycle of a flow in atrium/trcflow/core/context.go: `SyncTableCycle`, which starts it, and the
-- loop of `seedVaultCycle` over what arrives on its channels. What each persisting of changes meets
-- in the database and in the vault is a parameter, by the number of calls so far.
pub mod Waiting
use tierceron.Base.{
  ℕ, zero, suc, ◌+◌, Bool, true, false, not, Option, none, some, List, [], ◌∷◌, ◌++◌, if◌then◌else◌,
  ℤ, pos,
}
use tierceron.GoStrings.{Text, codes, text_eq, is_empty}
use tierceron.ChangeTracking.Removal.{Engine, Process}
use tierceron.Flow.Effects.{Settings, Calls, Effect}
use tierceron.Flow.Persist.{
  Persisted, persisted, not_removed, broken, waiting, vault_persist_push_remote_changes,
}

-- a signal to the process, a change of the table, the end of the flow's context, and a notice
pub data Event : Type 0 where
  signalled : Event
  changed : Event
  done : Event
  noticed : Event

-- The flow in its cycle, with the calls that persist changes and the removals that have failed.
pub record Cycling : Type 0 where
  pub settings : Settings
  pub process : Process
  pub restart : Bool
  pub calls : ℕ
  pub failures : ℕ
  pub effects : List Effect

-- The cycle goes on, ends with whether the table is synchronised again, ends the process, panics,
-- or waits for ever for the lock.
pub data Course : Type 0 where
  running : Cycling → Course
  ended : Bool → Cycling → Course
  exited : Cycling → Course
  crashed : Cycling → Course
  stuck : Cycling → Course

abbrev pub counted : Cycling → Process → Cycling
counted c p = record c { process = p; calls = suc c.calls }

-- after a call that persists changes, whose error the cycle does not look at
abbrev pub after_persist : Cycling → Persisted → (Cycling → Course) → Course
after_persist c (persisted s names p) k = k (record (counted c p) {
  settings = record c.settings { index_names = names };
  effects = c.effects ++ s;
})
after_persist c (not_removed p) k = k (record (counted c p) { failures = suc c.failures })
after_persist c (broken p) k = crashed (counted c p)
after_persist c waiting k = stuck c

-- one call that persists changes
unfoldable pub persist_once : (ℕ → Engine) → (ℕ → Calls) → Cycling → (Cycling → Course) → Course
persist_once engines worlds c k =
    after_persist c
      (vault_persist_push_remote_changes (engines c.calls) (worlds c.calls) c.settings c.process) k

abbrev pub finish : Cycling → Course
finish c = ended c.restart (record c { restart = false })

-- one turn of the loop
unfoldable pub cycle_event : (ℕ → Engine) → (ℕ → Calls) → Event → Cycling → Course
cycle_event engines worlds signalled c = exited c
cycle_event engines worlds changed c = persist_once engines worlds c running
cycle_event engines worlds done c = persist_once engines worlds c finish
cycle_event engines worlds noticed c = running c

abbrev pub next_turn : Course → (Cycling → Course) → Course
next_turn (running c) k = k c
next_turn (ended again c) k = ended again c
next_turn (exited c) k = exited c
next_turn (crashed c) k = crashed c
next_turn (stuck c) k = stuck c

-- `seedVaultCycle`, for what arrives on its channels
unfoldable pub seed_vault_cycle : (ℕ → Engine) → (ℕ → Calls) → List Event → Cycling → Course
seed_vault_cycle engines worlds [] c = running c
seed_vault_cycle engines worlds (e ∷ events) c =
    next_turn (cycle_event engines worlds e c) (seed_vault_cycle engines worlds events)

-- what `SyncTableCycle` reads of its flow
pub record FlowContext : Type 0 where
  pub flow : Text
  pub flow_alias : Text
  pub state : ℤ
  pub sync_mode : Text
  pub sync_filter : Text
  pub init : Bool
  pub restart : Bool
  pub has_connection : Bool
  pub has_push : Bool
  pub has_group : Bool

-- What it does: a row of statistics of the loading, an update of the flow's state, the seeding of
-- the database, the end of the statistics, the notice that the flow has been initialised, the table
-- for which permissions are wanted, a log line, and the start of the cycle with or without a push.
pub data Action : Type 0 where
  loading : (name state_name code : Text) → Action
  state_update : (flow state_name filter mode : Text) → Action
  seed_database : Action
  statistics_end : Action
  initialised : Action
  permission : Text → ℤ → Action
  log_line : Text → Action
  cycle_start : Bool → Action

abbrev when : Bool → Action → List Action
when true a = a ∷ []
when false a = []

abbrev statistic_name : FlowContext → Text
statistic_name f = if is_empty f.flow_alias then f.flow else f.flow_alias

abbrev ready_action : FlowContext → Action
ready_action f =
    if f.init
    then permission f.flow f.state
    else if is_two f.state
    then log_line (codes "Flow ready for use: " ++ f.flow)
    else log_line (codes "Unexpected flow state: " ++ f.flow)
  where
    is_two : ℤ → Bool
    is_two (pos (suc (suc zero))) = true
    is_two _ = false

-- `SyncTableCycle`: the flow and what has been done in turn
unfoldable pub sync_table_cycle : FlowContext → FlowContext × List Action
sync_table_cycle f =
    let complete = text_eq f.sync_mode (codes "pullsynccomplete") in
    let g = record f {
      sync_mode = if complete then codes "pullcomplete" else f.sync_mode;
      has_push = if f.has_connection then f.has_push else false;
      init = false;
    } in
    (
      g,
      when f.init (loading (statistic_name f) (codes "Loading") (codes "1"))
          ++ (when complete (state_update f.flow (codes "2") f.sync_filter (codes "pullcomplete"))
              ++ (when (not f.restart) seed_database
                  ++ (when f.init (loading (statistic_name f) (codes "Load complete") (codes "2"))
                      ++ (when f.init statistics_end
                          ++ (when f.has_group initialised
                              ++ ready_action f ∷ cycle_start g.has_push ∷ []))))),
    )
