-- ===== src/Statistics/Retrieve.antt =====
-- RetrieveStatistic of atrium/trcflow/core/dataFlowStatistics.go: the statistics of a flow are read from
-- the vault. `read` is `mod.ReadData` with a flag for its error, given whether the path is read for the
-- second time.
use tierceron.Base.{Bool, true, false, Option, none, some, List, [], ◌∷◌, ◌++◌, ◌≡◌, refl}
use tierceron.GoStrings.{Text, codes}
use tierceron.Modifier.Templates.{Listing, refused, missing, listed}
use tierceron.Modifier.Vault.{Value, scalar, text, Fields, lookup, assign}
use tierceron.Statistics.{
  Node, node, Nodes, no_nodes, append_node, Row, Statistic, map_statistic, or_initial,
}

-- The statistics behind those of the flow, with an error or without one, or a panic.
pub data Retrieved : Type 0 where
  retrieved : Nodes → Retrieved
  failed : Nodes → Retrieved
  panicked : Retrieved

abbrev pub Reader : Type 0
Reader = (again : Bool) → Text → Option Fields × Bool

abbrev pub fields_or_nil : Option Fields → Fields
fields_or_nil none = []
fields_or_nil (some d) = d

abbrev pub text_at : Option Value → Option Text
text_at (some (scalar (text s))) = some s
text_at _ = none

-- the date of the properties of a flow, which is taken only where their read has returned an error
abbrev pub flow_date : Option Fields × Bool → Text
flow_date (d, false) = []
flow_date (d, true) = or_initial [] (text_at (lookup (codes "lastTestedDate") (fields_or_nil d)))

-- the date of a statistic: an empty one is looked up in the flow's properties; `none` is a panic
abbrev pub date_step : Reader → Fields → Option Text → Option Text → Option Fields
date_step read d none group = some d
date_step read d (some (c ∷ date)) group = some d
date_step read d (some []) none = none
date_step read d (some []) (some group) = some (
    assign (codes "lastTestedDate")
      (scalar (text (flow_date (read false (codes "super-secrets/" ++ group))))) d)

unfoldable pub with_date : Reader → Fields → Option Fields
unfolding lookup assign
with_date read d =
    date_step read d (text_at (lookup (codes "lastTestedDate") d))
      (text_at (lookup (codes "flowGroup") d))

abbrev pub row_of_texts :
    Option Text
    → Option Text
    → Option Text
    → Option Text
    → Option Text
    → Option Text
    → Text
    → Option Row
row_of_texts (some group) (some flow) (some state) (some code) (some tested) (some time) mode =
    some record {
      flow_name = flow;
      argos_id = [];
      flow_group = group;
      mode = mode;
      state_code = code;
      state_name = state;
      time_split = time;
      last_tested_date = tested;
    }
row_of_texts _ _ _ _ _ _ mode = none

-- the values that `MapStatistic` takes as texts, all of which must be there; `show` is how a mode is
-- formatted
unfoldable pub row_of_fields : (show : Option Value → Text) → Fields → Option Row
unfolding lookup
row_of_fields show d =
    row_of_texts (text_at (lookup (codes "flowGroup") d)) (text_at (lookup (codes "flowName") d))
      (text_at (lookup (codes "stateName") d)) (text_at (lookup (codes "stateCode") d))
      (text_at (lookup (codes "lastTestedDate") d)) (text_at (lookup (codes "timeSplit") d))
      (show (lookup (codes "mode") d))

abbrev pub map_row : (Statistic → Option Text) → Option Row → Option Node
map_row encode none = none
map_row encode (some r) = some (node [] (or_initial [] (encode (map_statistic r))) no_nodes)

abbrev pub dated_node :
    (Statistic → Option Text) → (Option Value → Text) → Option Fields → Option Node
dated_node encode show none = none
dated_node encode show (some d) = map_row encode (row_of_fields show d)

-- the node of the data of one state code; `none` is a panic
unfoldable pub node_of :
    (Statistic → Option Text) → (Option Value → Text) → Reader → Option Fields → Option Node
unfolding with_date row_of_fields map_statistic
node_of encode show read d = dated_node encode show (with_date read (fields_or_nil d))

abbrev pub add_node : Option Node → Nodes → (Nodes → Retrieved) → Retrieved
add_node none below rest = panicked
add_node (some n) below rest = rest (append_node n below)

-- One state code: data that is missing is read again, and the second answer is looked at only to see
-- whether it is missing too.
abbrev pub retrieve_code :
    (Option Fields → Option Node)
    → Option Fields × Bool
    → Option Fields × Bool
    → Nodes
    → (Nodes → Retrieved)
    → Retrieved
retrieve_code to_node (d, true) again below rest = failed below
retrieve_code to_node (some d, false) again below rest = add_node (to_node (some d)) below rest
retrieve_code to_node (none, false) (none, false) below rest = retrieved below
retrieve_code to_node (none, false) (none, true) below rest = add_node (to_node none) below rest
retrieve_code to_node (none, false) (some d, e) below rest = add_node (to_node none) below rest

-- The loop over the state codes.
unfoldable pub retrieve_codes :
    (Option Fields → Option Node) → Reader → Text → List Text → Nodes → Retrieved
unfolding append_node
retrieve_codes to_node read path [] below = retrieved below
retrieve_codes to_node read path (code ∷ codes_left) below =
    let place : Text = path ++ (codes "/" ++ code) in
    retrieve_code to_node (read false place) (read true place) below
      (retrieve_codes to_node read path codes_left)

abbrev pub retrieve_listed :
    (Option Fields → Option Node) → Reader → Text → Listing → Nodes → Retrieved
retrieve_listed to_node read path refused below = failed below
retrieve_listed to_node read path missing below = panicked
retrieve_listed to_node read path (listed names) below =
    retrieve_codes to_node read path names below

-- `RetrieveStatistic`
unfoldable pub retrieve_statistic :
    (Statistic → Option Text)
    → (Option Value → Text)
    → (Text → Listing)
    → Reader
    → Text
    → Nodes
    → Retrieved
unfolding node_of retrieve_codes
retrieve_statistic encode show list read path below =
    retrieve_listed (node_of encode show read) read path (list path) below

-- Data that is not there cannot be made a statistic of.
node_of-missing :
    (encode : Statistic → Option Text) (show : Option Value → Text) (read : Reader)
    → node_of encode show read none ≡ none
unfolding node_of with_date row_of_fields lookup
node_of-missing encode show read = refl

-- what is returned where the second read has found nothing, or data
abbrev pub second_read : Nodes → Option Fields → Retrieved
second_read below none = retrieved below
second_read below (some d) = panicked

late_code :
    (to_node : Option Fields → Option Node) (late : Option Fields) (below : Nodes)
    (rest : Nodes → Retrieved)
    → to_node none ≡ none
    → retrieve_code to_node (none, false) (late, false) below rest ≡ second_read below late
late_code to_node none below rest h = refl
late_code to_node (some d) below rest h = rw h refl

-- Where the data of the first state code is missing at the first read, and the second read does not
-- fail, RetrieveStatistic leaves off without an error if the data is still missing, and panics if the
-- second read has found it.
pub retrieve_statistic-late :
    (encode : Statistic → Option Text) (show : Option Value → Text) (list : Text → Listing)
    (read : Reader) (path code : Text) (names : List Text) (late : Option Fields) (below : Nodes)
    → list path ≡ listed (code ∷ names)
    → read false (path ++ (codes "/" ++ code)) ≡ (none, false)
    → read true (path ++ (codes "/" ++ code)) ≡ (late, false)
    → retrieve_statistic encode show list read path below ≡ second_read below late
unfolding retrieve_statistic retrieve_codes
retrieve_statistic-late encode show list read path code names late below l h k =
    rw (l, h, k)
      (late_code (node_of encode show read) late below
        (retrieve_codes (node_of encode show read) read path names)
        (node_of-missing encode show read))
