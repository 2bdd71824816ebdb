-- ===== src/ChangeTracking/Queries.antt =====
-- The queries on a table of changed rows. `none` is a panic: a value that is not of the type that
-- is asserted, or an index out of range.
pub mod Position
use tierceron.Base.{
  ℕ, zero, suc, Bool, true, false, not, ◌&&◌, Option, none, some, List, [], ◌∷◌, ◌++◌, length, ltb,
  if◌then◌else◌,
}
use tierceron.GoStrings.{Text, codes, text_eq, is_empty}
use tierceron.GoNumbers.{itoa}
use tierceron.ChangeTracking.{Cell, text, int64, int, other, Row, concat, show_text}

abbrev table_name : Text → Text → Text
table_name database table = database ++ (codes "." ++ table)

-- `getChangeIdQuery`
unfoldable pub get_change_id_query : Text → Text → Text
get_change_id_query database table = codes "SELECT id FROM " ++ table_name database table

-- The value of a query, as `%d` for an int64 and as `%s` for all else.
abbrev pub show_id : Cell → Text
show_id (int64 i) = itoa i
show_id (text s) = show_text (text s)
show_id (int i) = show_text (int i)
show_id (other s d) = show_text (other s d)

-- `getChangedByIdQuery`
unfoldable pub get_changed_by_id_query : Text → Text → Text → Cell → Text
unfolding concat
get_changed_by_id_query database table column id = concat (
    codes "SELECT * FROM "
    ∷ table_name database table
    ∷ codes " WHERE "
    ∷ column
    ∷ codes "='"
    ∷ show_id id
    ∷ codes "'"
    ∷ [])

-- `getDeleteChangeQuery`
unfoldable pub get_delete_change_query : Text → Text → Cell → Text
unfolding concat
get_delete_change_query database table id = concat (
    codes "DELETE FROM "
    ∷ table_name database table
    ∷ codes " WHERE id = '"
    ∷ show_id id
    ∷ codes "'"
    ∷ [])

abbrev quoted_id : Cell → Text
quoted_id (int64 i) = itoa i
quoted_id (text s) = codes "'" ++ (s ++ codes "'")
quoted_id (int i) = codes "'" ++ (show_text (int i) ++ codes "'")
quoted_id (other s d) = codes "'" ++ (s ++ codes "'")

-- `getInsertChangeQuery`
unfoldable pub get_insert_change_query : Text → Text → Cell → Text
unfolding concat
get_insert_change_query database table id = concat (
    codes "INSERT IGNORE INTO "
    ∷ table_name database table
    ∷ codes " VALUES ("
    ∷ quoted_id id
    ∷ codes ", current_timestamp())"
    ∷ [])

-- `getCompositeChangeIdQuery`
unfoldable pub get_composite_change_id_query : Text → Text → List Text → Option Text
unfolding concat
get_composite_change_id_query database table (a ∷ b ∷ names) = some (
    concat (codes "SELECT " ∷ a ∷ codes ", " ∷ b ∷ codes " FROM " ∷ table_name database table ∷ []))
get_composite_change_id_query database table [] = none
get_composite_change_id_query database table (a ∷ []) = none

-- ` WHERE a='x' AND b='y'` and so on
abbrev pub equals : Text → Text → Text
equals column value = column ++ (codes "='" ++ (value ++ codes "'"))

-- `getCompositeDeleteChangeQuery`, which is empty where a name or a value is
unfoldable pub get_composite_delete_change_query :
    Text → Text → List Text → Text → Text → Option Text
unfolding concat
get_composite_delete_change_query database table (a ∷ b ∷ names) x y =
    if not (is_empty a) && (not (is_empty x) && (not (is_empty b) && not (is_empty y)))
    then some (
        concat (
          codes "DELETE FROM "
          ∷ table_name database table
          ∷ codes " WHERE "
          ∷ equals a x
          ∷ codes " AND "
          ∷ equals b y
          ∷ []))
    else some []
get_composite_delete_change_query database table [] x y = none
get_composite_delete_change_query database table (a ∷ []) x y = none

-- `getStatisticChangeIdQuery`
unfoldable pub get_statistic_change_id_query : Text → Text → Text → List Text → Option Text
unfolding concat
get_statistic_change_id_query database table id (a ∷ b ∷ names) = some (
    concat (
      codes "SELECT "
      ∷ id
      ∷ codes ", "
      ∷ a
      ∷ codes ", "
      ∷ b
      ∷ codes " FROM "
      ∷ table_name database table
      ∷ []))
get_statistic_change_id_query database table id [] = none
get_statistic_change_id_query database table id (a ∷ []) = none

-- `getStatisticDeleteChangeQuery`, which is empty where a value is
unfoldable pub get_statistic_delete_change_query :
    Text → Text → Text → Text → List Text → Text → Text → Option Text
unfolding concat
get_statistic_delete_change_query database table id v names x y =
    if not (is_empty v) && (not (is_empty x) && not (is_empty y))
    then elim names [
      | [] ↦ none
      | a ∷ rest ↦ elim rest [
        | [] ↦ none
        | b ∷ more ↦ some (
            concat (
              codes "DELETE FROM "
              ∷ table_name database table
              ∷ codes " WHERE "
              ∷ equals id v
              ∷ codes " AND "
              ∷ equals a x
              ∷ codes " AND "
              ∷ equals b y
              ∷ []))
      ]
    ]
    else some []

-- `getStatisticInsertChangeQuery`, for values that are texts
unfoldable pub get_statistic_insert_change_query : Text → Text → Text → Text → Text → Text
unfolding concat
get_statistic_insert_change_query database table v x y =
    if not (is_empty v) && (not (is_empty x) && not (is_empty y))
    then concat (
        codes "INSERT IGNORE INTO "
        ∷ table_name database table
        ∷ codes " VALUES ('"
        ∷ v
        ∷ codes "', '"
        ∷ x
        ∷ codes "', '"
        ∷ y
        ∷ codes "', current_timestamp())"
        ∷ [])
    else []

-- `removeElementFromSlice`: what is left, and the removed text, or the empty one
unfoldable pub remove_element_from_slice : List Text → Text → List Text × Text
unfolding text_eq
remove_element_from_slice [] s = ([], [])
remove_element_from_slice (v ∷ slice) s =
    let (rest, removed) = remove_element_from_slice slice s in
    if text_eq v s then (slice, v) else (v ∷ rest, removed)

abbrev is_text : Cell → Text → Bool
is_text (text t) s = text_eq t s
is_text (int64 i) s = false
is_text (int i) s = false
is_text (other t d) s = false

-- `removeElementFromSliceInterface`
unfoldable pub remove_element_from_slice_interface : Row → Text → Row × Option Cell
unfolding text_eq
remove_element_from_slice_interface [] s = ([], none)
remove_element_from_slice_interface (v ∷ slice) s =
    let (rest, removed) = remove_element_from_slice_interface slice s in
    if is_text v s then (slice, some v) else (v ∷ rest, removed)

-- the loop over the names; `none` where there are fewer values than names
unfoldable pub and_equals : Text → List Text → Row → Option Text
and_equals query [] values = some query
and_equals query (name ∷ names) [] = none
and_equals query (name ∷ names) (v ∷ values) =
    and_equals (query ++ (codes " AND " ++ equals name (show_text v))) names values

abbrev start_query : Text → Text → Text → Text → Text
start_query database table column value = concat (
    codes "SELECT * FROM " ∷ table_name database table ∷ codes " WHERE " ∷ equals column value ∷ [])

abbrev and_names : Text → List Text → Row → Option Text
and_names query names values =
    if ltb 1 (length names) then and_equals query names values else some query

-- `getStatisticChangedByIdQuery`, for a list of names and one of values
unfoldable pub get_statistic_changed_by_id_query :
    Text → Text → Text → List Text → Row → Option Text
unfolding concat remove_element_from_slice remove_element_from_slice_interface and_equals
get_statistic_changed_by_id_query database table column names [] = none
get_statistic_changed_by_id_query database table column names (text s ∷ values) =
    let rest = (remove_element_from_slice_interface (text s ∷ values) s).0 in
    let others = (remove_element_from_slice names column).0 in
    and_names (start_query database table column s) others rest
get_statistic_changed_by_id_query database table column names (int64 i ∷ values) =
    and_names (start_query database table column (itoa i)) names (int64 i ∷ values)
get_statistic_changed_by_id_query database table column names (int i ∷ values) =
    and_names (start_query database table column (itoa i)) names (int i ∷ values)
get_statistic_changed_by_id_query database table column names (other s d ∷ values) = none
