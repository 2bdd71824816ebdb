-- ===== src/Statistics/Updates.antt =====
-- InitDataFlow, UpdateDataFlowStatistic and EfficientLog of
-- atrium/trcflow/core/dataFlowStatistics.go. Data that is encoded and decoded is JSON, so a decoded
-- value is never a time, a duration or a function. The package json and the clock are parameters.
use tierceron.Base.{Bool, true, false, Option, none, some, List, [], ◌∷◌, ◌++◌, if◌then◌else◌, ℤ}
use tierceron.GoMaps.{Map, fetch}
use tierceron.GoStrings.{Text, codes, is_empty, contains}
use tierceron.Statistics.{Node, node, Nodes, no_nodes, append_node}

-- A decoded value; `null` is as a value that is missing, and an array or a map is `other`.
pub data Json : Type 0 where
  str : Text → Json
  boolean : Bool → Json
  number : ℤ → Json
  other : Json

pub data Decoded : Type 0 where
  undecodable : Decoded
  no_object : Decoded
  object : Map Json → Decoded

-- the data of a new statistic
pub record Update : Type 0 where
  pub group : Text
  pub flow : Text
  pub state : Text
  pub code : Text
  pub mode : ℤ
  pub start : Text
  pub elapsed : ℤ

-- The package json and the clock: `start_data` is the encoded time at which a flow starts,
-- `has_format` whether a text is a time, `time_text` how that time is encoded, `since`
-- the time that has passed since then, and `zero_time` and `now` are texts of times. `encode_timed`
-- encodes the data without the time of the start. An error of theirs is told by the message that it is logged with.
pub record Codec : Type 0 where
  pub decode : Text → Decoded
  pub encode_update : Update → Option Text
  pub start_data : Text → Option Text
  pub has_format : Text → Bool
  pub encode_timed : Update → Option Text
  pub time_text : Text → Text
  pub since : Text → ℤ
  pub zero_time : Text
  pub now : Text

abbrev pub LogLine : Type 0
LogLine = Text × Option Text

-- The node and what has been logged, or a panic.
pub data Updated : Type 0 where
  updated : Node → List LogLine → Updated
  panicked : Updated

-- `logF(message, err)`, which is a panic where `logF` is nil
abbrev pub report : Bool → Text → Node → Updated
report true message n = updated n ((message, some message) ∷ [])
report false message n = panicked

-- `InitDataFlow`: a log function cannot be encoded, so that with one the node has no name and no data
unfoldable pub init_data_flow : (encoded : Option Text) → (log_function : Bool) → Text → Node
init_data_flow none log_function name = node [] [] no_nodes
init_data_flow (some content) true name = node [] [] no_nodes
init_data_flow (some content) false name = node name content no_nodes

abbrev pub failure_of : Text → Option Text
failure_of state = if contains state (codes "Failure") then some state else none

abbrev pub is_present : Option Json → Bool
is_present none = false
is_present (some v) = true

-- the test of `LogStat`, and the use of a decoded value as a function
abbrev pub log_decoded : Option Json → Option Json → Node → Updated
log_decoded none f n = updated n []
log_decoded (some (boolean false)) f n = updated n []
log_decoded (some (boolean true)) none n = updated n []
log_decoded (some (boolean true)) (some v) n = panicked
log_decoded (some _) f n = panicked

-- `EfficientLog`, as UpdateDataFlowStatistic calls it
unfoldable pub efficient_log : Bool → Update → Map Json → Node → Updated
efficient_log true u m n = updated n ((u.flow ++ (codes "-" ++ u.state), failure_of u.state) ∷ [])
efficient_log false u m n = log_decoded (fetch (codes "LogStat") m) (fetch (codes "LogFunc") m) n

abbrev pub with_child : Node → Text → Node
with_child (node name content below) child =
    node name content (append_node (node [] child no_nodes) below)

abbrev pub add_encoded : Bool → Update → Map Json → Node → Option Text → Updated
add_encoded logs u m n none =
    report logs (codes "Error in encoding data in UpdateDataFlowStatistics") n
add_encoded logs u m n (some child) = efficient_log logs u m (with_child n child)

unfoldable pub add_statistic : Codec → Bool → Update → Map Json → Node → Updated
unfolding efficient_log append_node
add_statistic c logs u m n = add_encoded logs u m n (c.encode_update u)

abbrev pub started : Codec → Update → Text → Update
started c u t = record u { start = c.time_text t; elapsed = c.since t }

-- a node with data: the time at which the flow has started is read
abbrev pub update_started : Codec → Bool → Update → Map Json → Option Json → Node → Updated
update_started c logs u m none n = add_statistic c logs (started c u c.zero_time) m n
update_started c logs u m (some (str t)) n =
    if c.has_format t
    then add_statistic c logs (started c u t) m n
    else report logs (codes "Error in parsing start time in UpdateDataFlowStatistics") n
update_started c logs u m (some _) n = panicked

abbrev pub update_decoded : Codec → Bool → Update → Decoded → Node → Updated
update_decoded c logs u undecodable n =
    report logs (codes "Error in decoding data in UpdateDataFlowStatistic") n
update_decoded c logs u no_object n = panicked
update_decoded c logs u (object m) n = update_started c logs u m (fetch (codes "TimeStart") m) n

-- a node without data: the flow starts now
abbrev pub update_new : Codec → Bool → Update → Text → Nodes → Option Text → Updated
update_new c logs u name below none =
    report logs (codes "Error in encoding data in UpdateDataFlowStatistics") (node name [] below)
update_new c logs u name below (some content) =
    add_statistic c logs (started c u c.now) ((codes "TimeStart", str c.now) ∷ [])
      (node name content below)

-- `UpdateDataFlowStatistic`
unfoldable pub update_data_flow_statistic : Codec → Bool → Update → Node → Updated
unfolding add_statistic
update_data_flow_statistic c logs u (node name content below) =
    if is_empty content
    then update_new c logs u name below (c.start_data c.now)
    else update_decoded c logs u (c.decode content) (node name content below)

abbrev pub log_timed : Decoded → Node → Updated
log_timed undecodable n = updated n []
log_timed no_object n = panicked
log_timed (object m) n = log_decoded (fetch (codes "LogStat") m) (fetch (codes "LogFunc") m) n

abbrev pub add_timed : Codec → Node → Option Text → Updated
add_timed c n none = updated n []
add_timed c (node name content below) (some child) =
    log_timed (c.decode content) (with_child (node name content below) child)

-- `UpdateDataFlowStatisticWithTime`, where the time that has passed is given
unfoldable pub update_with_time : Codec → Update → Node → Updated
unfolding append_node
update_with_time c u n = add_timed c n (c.encode_timed u)
