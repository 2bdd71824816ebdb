-- ===== src/Statistics/Finish.antt =====
-- FinishStatistic and FinishStatisticLog of atrium/trcflow/core/dataFlowStatistics.go: the
-- statistics of a flow are written. Whether a write fails and whether an insertion changes the table
-- are parameters, and what has been done is a list of effects.
use tierceron.Base.{
  Bool, true, false, not, ◌&&◌, Option, none, some, List, [], ◌∷◌, ◌++◌, if◌then◌else◌, ℤ,
}
use tierceron.GoMaps.{Map, fetch}
use tierceron.GoStrings.{Text, codes}
use tierceron.Statistics.{Node, node, Nodes, no_nodes, more}
use tierceron.Statistics.Updates.{
  Json, str, boolean, number, Decoded, undecodable, no_object, object, is_present,
}

-- A row for the table or the vault; a value that the data lacks is `none`.
pub record StatMap : Type 0 where
  pub flow_group : Option Json
  pub flow_name : Option Json
  pub state_name : Option Json
  pub state_code : Option Json
  pub time_split : Text
  pub mode : Option Json
  pub last_tested_date : Text

pub data Effect : Type 0 where
  inserted : StatMap → Effect
  wrote : Text → StatMap → Effect

-- What has been done, until the function returned or panicked.
pub data Finished : Type 0 where
  returned : List Effect → Finished
  panicked : List Effect → Finished

abbrev pub before : List Effect → Finished → Finished
before es (returned more_es) = returned (es ++ more_es)
before es (panicked more_es) = panicked (es ++ more_es)

-- What FinishStatistic is given: where the statistics go, and how the vault and the table answer.
pub record Target : Type 0 where
  pub decode : Text → Decoded
  pub elapsed : ℤ → Text
  pub prefix : Text
  pub write_back : Bool
  pub has_contexts : Bool
  pub write_fails : Text → Bool
  pub insert_changes : StatMap → Bool

abbrev pub time_text : (ℤ → Text) → Option Json → Text
time_text elapsed (some (number n)) = elapsed n
time_text elapsed _ = []

abbrev pub text_or_empty : Option Json → Text
text_or_empty (some (str t)) = t
text_or_empty _ = []

-- the row of a statistic
unfoldable pub data_row : (ℤ → Text) → Map Json → StatMap
data_row elapsed m = record {
  flow_group = fetch (codes "FlowGroup") m;
  flow_name = fetch (codes "FlowName") m;
  state_name = fetch (codes "StateName") m;
  state_code = fetch (codes "StateCode") m;
  time_split = time_text elapsed (fetch (codes "TimeSplit") m);
  mode = fetch (codes "Mode") m;
  last_tested_date = text_or_empty (fetch (codes "TimeStart") m);
}

-- the path of a statistic in the vault, whose parts are texts
abbrev pub path_parts : Text → Option Json → Option Json → Option Json → Option Text
path_parts prefix (some (str group)) (some (str flow)) (some (str code)) = some (
    prefix
    ++ (codes "/DataFlowStatistics/DataFlowGroup/"
        ++ (group ++ (codes "/dataFlowName/" ++ (flow ++ (codes "/" ++ code))))))
path_parts prefix _ _ _ = none

unfoldable pub statistic_path : Text → StatMap → Option Text
statistic_path prefix row = path_parts prefix row.flow_group row.flow_name row.state_code

-- a write, whose error is told to a function of the data: what is decoded is none
abbrev pub write_row : Target → (log_func : Bool) → StatMap → Option Text → Finished → Finished
write_row t log_func row none rest = panicked []
write_row t log_func row (some path) rest =
    if t.write_fails path && log_func
    then panicked (wrote path row ∷ [])
    else before (wrote path row ∷ []) rest

-- one statistic, in front of the others
unfoldable pub finish_row : Target → (log_func : Bool) → StatMap → Finished → Finished
unfolding statistic_path
finish_row t log_func row rest =
    let written = write_row t log_func row (statistic_path t.prefix row) rest in
    if t.write_back
    then written
    else if not t.has_contexts
    then rest
    else before (inserted row ∷ []) (if t.insert_changes row then rest else written)

abbrev pub finish_decoded : Target → Bool → Decoded → Finished → Finished
finish_decoded t log_func undecodable rest = returned []
finish_decoded t log_func no_object rest = panicked []
finish_decoded t log_func (object m) rest = finish_row t log_func (data_row t.elapsed m) rest

-- The loop over the statistics.
unfoldable pub finish_rows : Target → Bool → Nodes → Finished
unfolding finish_row data_row
finish_rows t log_func no_nodes = returned []
finish_rows t log_func (more (node name content below) rest) =
    finish_decoded t log_func (t.decode content) (finish_rows t log_func rest)

-- `FinishStatisticLog`, where there is something to log with: it is used as a function, which what
-- is decoded never is. A statistic that cannot be decoded ends it.
unfoldable pub finish_statistic_log : (Text → Decoded) → Nodes → Bool
finish_statistic_log decode no_nodes = true
finish_statistic_log decode (more (node name content below) rest) = elim (decode content) [
  | undecodable ↦ true
  | _ ↦ false
]

abbrev pub logged_rows : Target → Nodes → Finished
logged_rows t below =
    if finish_statistic_log t.decode below then finish_rows t true below else panicked []

abbrev pub finish_data : Target → Option Json → Bool → Nodes → Finished
finish_data t none log_func below = finish_rows t log_func below
finish_data t (some (boolean true)) log_func below = finish_rows t log_func below
finish_data t (some (boolean false)) false below = finish_rows t false below
finish_data t (some (boolean false)) true below = logged_rows t below
finish_data t (some _) log_func below = panicked []

abbrev pub finish_node : Target → Decoded → Nodes → Finished
finish_node t undecodable below = returned []
finish_node t no_object below = panicked []
finish_node t (object m) below =
    finish_data t (fetch (codes "LogStat") m) (is_present (fetch (codes "LogFunc") m)) below

-- `FinishStatistic`
unfoldable pub finish_statistic : Target → Node → Finished
unfolding finish_rows finish_statistic_log
finish_statistic t (node name content below) = finish_node t (t.decode content) below
