-- ===== src/Statistics/Examples.antt =====
-- A table with two rows of one argosy, and a flow with a statistic that is added and written.
use tierceron.Base.{◌≡◌, refl, true, false, Option, none, some, List, [], ◌∷◌, pos, if◌then◌else◌}
use tierceron.GoMaps.{Map, fetch}
use tierceron.GoStrings.{Text, codes, text_eq}
use tierceron.Modifier.Templates.{listed}
use tierceron.Statistics.{Node, node, no_nodes, Row, Statistic, argosy_fleet}
use tierceron.Statistics.Finish.{returned, Target, finish_statistic}
use tierceron.Statistics.Fleet.{statistics_of, entries_of, argosy_fleet-Perm}
use tierceron.Statistics.Recorded.{
  Encodes, json_of, row_of, path_of, line_for, finish_statistic-update_data_flow_statistic,
}
use tierceron.Statistics.Retrieve.{Reader, retrieve_statistic, second_read, retrieve_statistic-late}
use tierceron.Statistics.Updates.{
  Json, str, Decoded, undecodable, object, Update, Codec, updated, update_data_flow_statistic,
}
use tierceron.Statistics.Written.{effects_for, Quiet}
use mathlib.Core.List.{Perm}

abbrev row_for : Text → Text → Row
row_for name id = record {
  flow_name = name;
  argos_id = id;
  flow_group = codes "Login";
  mode = codes "1";
  state_code = codes "0";
  state_name = codes "ok";
  time_split = codes "2 seconds";
  last_tested_date = [];
}

abbrev table_rows : List Row
table_rows =
    row_for (codes "login-u1") (codes "a1")
    ∷ row_for (codes "sync") (codes "a2")
    ∷ row_for (codes "sync") (codes "a1")
    ∷ []

abbrev encode_state : Statistic → Option Text
encode_state s = some (b'{' ∷ s.state)

argosy_fleet-Perm_example :
    Perm
      (statistics_of
        (codes "a1")
        (argosy_fleet encode_state (codes "{}") (codes "a1" ∷ []) table_rows))
      (entries_of encode_state (codes "{}") (codes "a1") table_rows)
argosy_fleet-Perm_example =
    argosy_fleet-Perm encode_state (codes "{}") (codes "a1") (codes "a1" ∷ []) table_rows
      (λ s. refl)

abbrev flow_map : Map Json
flow_map = (codes "TimeStart", str (codes "t0")) ∷ []

abbrev new_statistic : Update
new_statistic = record {
  group = codes "Login";
  flow = codes "sync";
  state = codes "Failure";
  code = codes "1";
  mode = pos 1;
  start = [];
  elapsed = pos 0;
}

abbrev statistic_data : Update
statistic_data = record new_statistic { start = codes "t0"; elapsed = pos 5 }

abbrev decode_data : Text → Decoded
decode_data content =
    if text_eq content (codes "flow")
    then object flow_map
    else if text_eq content (codes "stat")
    then object (json_of statistic_data)
    else undecodable

abbrev codec : Codec
codec = record {
  decode = decode_data;
  encode_update = λ u. some (codes "stat");
  encode_timed = λ u. none;
  time_text = λ t. t;
  since = λ t. pos 5;
  start_data = λ t. none;
  has_format = λ t. true;
  zero_time = [];
  now = codes "t1";
}

abbrev target : Target
target = record {
  decode = decode_data;
  elapsed = λ n. codes "5ns";
  prefix = codes "super-secrets/PublicIndex/P/tenant/1";
  write_back = true;
  has_contexts = false;
  write_fails = λ path. false;
  insert_changes = λ row. false;
}

flow-Quiet : Quiet target (codes "flow")
unfolding text_eq fetch
flow-Quiet = record {
  flow_map = flow_map;
  decoded = refl;
  no_function = refl;
  stat = none;
  has_stat = refl;
}

flow-Encodes :
    Encodes codec target
      (codes "flow")
      flow-Quiet.flow_map
      (codes "t0")
      new_statistic
      (codes "stat")
unfolding flow-Quiet text_eq fetch
flow-Encodes = record {
  has_content = refl;
  same_data = refl;
  has_start = refl;
  is_time = refl;
  encoded = refl;
  round_trip = refl;
}

finish_statistic-update_data_flow_statistic_example :
    (n : Node) × (update_data_flow_statistic codec true new_statistic
        (node (codes "f") (codes "flow") no_nodes)
      ≡ updated n (line_for true statistic_data))
    × (finish_statistic target n
        ≡ returned (
            effects_for target
              ((row_of target.elapsed statistic_data, path_of target.prefix statistic_data) ∷ [])))
finish_statistic-update_data_flow_statistic_example =
    finish_statistic-update_data_flow_statistic codec target true (codes "f") (codes "flow")
      no_nodes [] (codes "t0") (codes "stat") new_statistic flow-Quiet flow-Encodes tt

abbrev late_reader : Reader
late_reader again path = if again then (some [], false) else (none, false)

retrieve_statistic-late_example :
    retrieve_statistic encode_state
      (λ v. [])
      (λ path. listed (codes "0" ∷ []))
      late_reader
      (codes "p")
      no_nodes
    ≡ second_read no_nodes (some [])
retrieve_statistic-late_example =
    retrieve_statistic-late encode_state (λ v. []) (λ path. listed (codes "0" ∷ [])) late_reader
      (codes "p") (codes "0") [] (some []) no_nodes refl refl refl
