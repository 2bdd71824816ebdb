-- ===== src/Statistics/Recorded.antt =====
-- A statistic that UpdateDataFlowStatistic adds to a flow, and that FinishStatistic then writes.
use tierceron.Base.{
  ◌≡◌, refl, Bool, true, false, Option, none, some, List, [], ◌∷◌, ◌++◌, if◌then◌else◌, ℤ,
}
use tierceron.GoMaps.{Map, fetch}
use tierceron.GoStrings.{Text, codes, text_eq, is_empty}
use tierceron.Statistics.{Node, node, Nodes, no_nodes, append_node}
use tierceron.Statistics.Finish.{
  StatMap, returned, Target, data_row, statistic_path, finish_statistic,
}
use tierceron.Statistics.Updates.{
  Json, str, number, object, Update, Codec, LogLine, updated, started, failure_of, efficient_log,
  add_statistic, log_decoded, boolean, update_data_flow_statistic,
}
use tierceron.Statistics.Written.{Rows, effects_for, Quiet, Rows-append_node, finish_statistic_all}

-- the data of a statistic as `encoding/json` decodes it
abbrev pub json_of : Update → Map Json
json_of u =
    (codes "FlowGroup", str u.group)
    ∷ (codes "FlowName", str u.flow)
    ∷ (codes "Mode", number u.mode)
    ∷ (codes "StateCode", str u.code)
    ∷ (codes "StateName", str u.state)
    ∷ (codes "TimeSplit", number u.elapsed)
    ∷ (codes "TimeStart", str u.start)
    ∷ []

-- the row of a statistic, and its path
abbrev pub row_of : (ℤ → Text) → Update → StatMap
row_of elapsed u = record {
  flow_group = some (str u.group);
  flow_name = some (str u.flow);
  state_name = some (str u.state);
  state_code = some (str u.code);
  time_split = elapsed u.elapsed;
  mode = some (number u.mode);
  last_tested_date = u.start;
}

abbrev pub path_of : Text → Update → Text
path_of prefix u =
    prefix
    ++ (codes "/DataFlowStatistics/DataFlowGroup/"
        ++ (u.group ++ (codes "/dataFlowName/" ++ (u.flow ++ (codes "/" ++ u.code)))))

-- A flow that has started, and a statistic of it that is encoded, and decoded again.
pub record Encodes (c : Codec) (t : Target) (content : Text) (flow_map : Map Json) (start : Text)
    (u : Update) (child : Text) : Type 0 where
  pub has_content : is_empty content ≡ false
  pub same_data : c.decode content ≡ object flow_map
  pub has_start : fetch (codes "TimeStart") flow_map ≡ some (str start)
  pub is_time : c.has_format start ≡ true
  pub encoded : c.encode_update (started c u start) ≡ some child
  pub round_trip : t.decode child ≡ object (json_of (started c u start))

-- what is logged of a statistic
abbrev pub line_for : Bool → Update → List LogLine
line_for logs u = if logs then (u.flow ++ (codes "-" ++ u.state), failure_of u.state) ∷ [] else []

log_quiet :
    (stat : Option Bool) (o : Option Json) (n : Node)
    → o ≡ (elim stat [ none ↦ none | some b ↦ some (boolean b) ])
    → log_decoded o none n ≡ updated n []
log_quiet none o n h = rw h refl
log_quiet (some true) o n h = rw h refl
log_quiet (some false) o n h = rw h refl

efficient_log-line :
    (logs : Bool) (u : Update) (t : Target) (content : Text) (q : Quiet t content) (n : Node)
    → efficient_log logs u q.flow_map n ≡ updated n (line_for logs u)
unfolding efficient_log
efficient_log-line true u t content q n = refl
efficient_log-line false u t content q n =
    rw q.no_function (log_quiet q.stat (fetch (codes "LogStat") q.flow_map) n q.has_stat)

update_added :
    (c : Codec) (t : Target) (logs : Bool) (name content : Text) (below : Nodes)
    (start child : Text) (u : Update) (q : Quiet t content)
    → Encodes c t content q.flow_map start u child
    → update_data_flow_statistic c logs u (node name content below)
      ≡ updated
          (node name content (append_node (node [] child no_nodes) below))
          (line_for logs (started c u start))
unfolding update_data_flow_statistic add_statistic
update_added c t logs name content below start child u q e =
    rw (e.has_content, e.same_data, e.has_start, e.is_time, e.encoded)
      (efficient_log-line logs (started c u start) t content q
        (node name content (append_node (node [] child no_nodes) below)))

row_is : (t : Target) (u : Update) → data_row t.elapsed (json_of u) ≡ row_of t.elapsed u
unfolding data_row fetch text_eq
row_is t u = refl

-- A statistic that is added to a flow is logged once, as a failure if its state says so, where there
-- is a function to log with, and FinishStatistic then writes or inserts it, as the target asks, at its
-- own path behind the statistics that the flow had before, which stay as they were: if the data of the
-- flow and of its statistics can be decoded, the flow has a time at which it has started and no
-- function to log with in its data, and the new statistic is encoded, and decoded to its fields again.
pub finish_statistic-update_data_flow_statistic :
    (c : Codec) (t : Target) (logs : Bool) (name content : Text) (below : Nodes)
    (rs : List (StatMap × Text)) (start child : Text) (u : Update) (q : Quiet t content)
    → Encodes c t content q.flow_map start u child
    → Rows t below rs
    → (n : Node) × (update_data_flow_statistic c logs u (node name content below)
        ≡ updated n (line_for logs (started c u start)))
      × (finish_statistic t n
          ≡ returned (
              effects_for t (
                rs
                ++ (row_of t.elapsed (started c u start), path_of t.prefix (started c u start))
                  ∷ [])))
unfolding statistic_path
finish_statistic-update_data_flow_statistic c t logs name content below rs start child u q e h =
    let v : Update = started c u start in
    let below_after : Nodes = append_node (node [] child no_nodes) below in
    (
      node name content below_after,
      update_added c t logs name content below start child u q e,
      finish_statistic_all t name content below_after
          (rs ++ (row_of t.elapsed v, path_of t.prefix v) ∷ []) q
          (Rows-append_node t below rs child (json_of v) (row_of t.elapsed v) (path_of t.prefix v) h
            e.round_trip (row_is t v) refl),
    )
