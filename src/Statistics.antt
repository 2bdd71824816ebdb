-- ===== src/Statistics.antt =====
-- The statistics of the flow service, atrium/trcflow/core/dataFlowStatistics.go: the tree of nodes,
-- and the rows of the table of statistics as a fleet of such trees. The encoding of a node's data is a
-- parameter.
pub mod Fleet
pub mod Entries
pub mod Updates
pub mod Finish
pub mod Written
pub mod Recorded
pub mod Retrieve
mod Examples
use tierceron.Base.{Bool, true, false, Option, none, some, List, [], ◌∷◌, ◌++◌, if◌then◌else◌, ℤ}
use tierceron.ConfigStore.Selection.{first_part}
use tierceron.GoMaps.{Map, fetch, store}
use tierceron.GoNumbers.{atoi}
use tierceron.GoStrings.{Text, codes, text_eq, contains, split, replace_all}

-- `TTDINode`: the name, the data, and the nodes below
mutual
  pub data Node : Type 0 where
    node : (name content : Text) → Nodes → Node

  pub data Nodes : Type 0 where
    no_nodes : Nodes
    more : Node → Nodes → Nodes

-- A row of the table of statistics.
pub record Row : Type 0 where
  pub flow_name : Text
  pub argos_id : Text
  pub flow_group : Text
  pub mode : Text
  pub state_code : Text
  pub state_name : Text
  pub time_split : Text
  pub last_tested_date : Text

-- What `MapStatistic` encodes; a mode that is no number is left out.
pub record Statistic : Type 0 where
  pub group : Text
  pub flow : Text
  pub state : Text
  pub code : Text
  pub tested : Text
  pub mode_number : Option ℤ
  pub split_text : Text

abbrev pub parsed_mode : ℤ × Bool → Option ℤ
parsed_mode (n, true) = some n
parsed_mode (n, false) = none

-- `MapStatistic` up to its encoding: the time is the text that the duration is parsed from
unfoldable pub map_statistic : Row → Statistic
map_statistic r = record {
  group = r.flow_group;
  flow = r.flow_name;
  state = r.state_name;
  code = r.state_code;
  tested = r.last_tested_date;
  mode_number = parsed_mode (atoi r.mode);
  split_text =
      if contains r.time_split (codes "seconds")
      then replace_all r.time_split (codes " seconds") (codes "s")
      else r.time_split;
}

abbrev pub or_initial : Text → Option Text → Text
or_initial initial none = initial
or_initial initial (some content) = content

-- the node of a row: that of `InitDataFlow`, with the data of the row if it can be encoded
unfoldable pub statistic_node : (Statistic → Option Text) → Text → Row → Node
unfolding map_statistic
statistic_node encode initial r =
    node r.flow_name (or_initial initial (encode (map_statistic r))) no_nodes

unfoldable pub append_node : Node → Nodes → Nodes
append_node n no_nodes = more n no_nodes
append_node n (more m rest) = more m (append_node n rest)

abbrev pub name_of : Node → Text
name_of (node name content below) = name

abbrev pub change_below : (Nodes → Nodes) → Node → Node
change_below f (node name content below) = node name content (f below)

-- Changes what is below the first node of a name, which is made behind the others if there is none.
unfoldable pub into_node : Text → (Nodes → Nodes) → Nodes → Nodes
into_node name f no_nodes = more (node name [] (f no_nodes)) no_nodes
into_node name f (more m rest) =
    let later = into_node name f rest in
    if text_eq (name_of m) name then more (change_below f m) rest else more m later

-- puts a node behind the others below a path of names
unfoldable pub add_below : List Text → Node → Nodes → Nodes
unfolding into_node append_node
add_below [] n below = append_node n below
add_below (name ∷ names) n below = into_node name (add_below names n) below

-- The names above the node of a row: its group, and the name of its flow, with the type in front
-- that a dash ends.
unfoldable pub place_of : Row → List Text
place_of r =
    r.flow_group
    ∷ (if contains r.flow_name (codes "-")
        then first_part (split r.flow_name (codes "-")) ∷ r.flow_name ∷ []
        else r.flow_name ∷ [])

abbrev pub nodes_or_none : Option Nodes → Nodes
nodes_or_none none = no_nodes
nodes_or_none (some ns) = ns

-- one row
unfoldable pub add_row : (Statistic → Option Text) → Text → Row → Map Nodes → Map Nodes
unfolding add_below place_of statistic_node
add_row encode initial r fleet =
    store r.argos_id
      (add_below (place_of r) (statistic_node encode initial r)
        (nodes_or_none (fetch r.argos_id fleet)))
      fleet

-- the loop of `InitArgosyFleet` over the rows
unfoldable pub add_rows : (Statistic → Option Text) → Text → List Row → Map Nodes → Map Nodes
unfolding add_row
add_rows encode initial [] fleet = fleet
add_rows encode initial (r ∷ rest) fleet =
    add_rows encode initial rest (add_row encode initial r fleet)

-- the map before the loop: the ids that are listed, without their slashes and with no nodes
unfoldable pub empty_fleet : List Text → Map Nodes
empty_fleet [] = []
empty_fleet (id ∷ ids) = store id no_nodes (empty_fleet ids)

-- the argosies of a fleet, from the ids that are listed and the rows of the table
unfoldable pub argosy_fleet : (Statistic → Option Text) → Text → List Text → List Row → Map Nodes
unfolding add_rows empty_fleet
argosy_fleet encode initial ids rows = add_rows encode initial rows (empty_fleet ids)
