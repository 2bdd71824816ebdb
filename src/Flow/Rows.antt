-- ===== src/Flow/Rows.antt =====
-- `Query` and `QueryWithBindings` of atrium/trcdb/db.go. The engine is a parameter: it fails, or
-- it gives the columns and what its cursor returns up to the end of the rows.
pub mod Agreement
use tierceron.Base.{
  ℕ, Bool, true, false, Option, none, some, List, [], ◌∷◌, ◌++◌, ltb, if◌then◌else◌, pos,
}
use tierceron.GoStrings.{Text, codes, is_empty}
use tierceron.GoNumbers.{itoa}
use tierceron.ChangeTracking.{Cell, text, int64, int, other, Row}

-- A step of the cursor: the result of a statement with its affected rows and the id that it has
-- inserted, a row, or an error.
pub data Item : Type 0 where
  ok_result : (affected inserted : ℕ) → Item
  row : Row → Item
  failure : Item

-- the columns, each with its name and its source, and the steps of the cursor
pub record Cursor : Type 0 where
  pub columns : List (Text × Text)
  pub items : List Item

-- What a query returns: the name of the table, the columns and the rows, or an error.
pub data Answer : Type 0 where
  answer : Text → List Text → List Row → Answer
  error : Answer

abbrev pub table_of : Answer → Text
table_of (answer table columns matrix) = table
table_of error = []

abbrev pub matrix_of : Answer → List Row
matrix_of (answer table columns matrix) = matrix
matrix_of error = []

unfoldable pub source_of : List (Text × Text) → Text
source_of [] = []
source_of ((name, source) ∷ columns) =
    let later = source_of columns in if is_empty source then later else source

unfoldable pub column_names : List (Text × Text) → List Text
column_names [] = []
column_names ((name, source) ∷ columns) = name ∷ column_names columns

-- the row of an id of 64 bits without a sign
abbrev pub id_row : ℕ → Row
id_row n = other (codes "%!s(uint64=" ++ (itoa (pos n) ++ codes ")")) (itoa (pos n)) ∷ []

-- the rows that the result of a statement adds
abbrev pub result_rows : ℕ → ℕ → List Row
result_rows affected inserted =
    if ltb 0 affected then [] ∷ [] else if ltb 0 inserted then id_row inserted ∷ [] else []

abbrev pub add_rows : List Row → Option (Bool × List Row) → Option (Bool × List Row)
add_rows rows none = none
add_rows rows (some (ok, matrix)) = some (ok, rows ++ matrix)

abbrev pub set_ok : Option (Bool × List Row) → Option (Bool × List Row)
set_ok none = none
set_ok (some (ok, matrix)) = some (true, matrix)

-- The loop over the cursor; `none` is an error.
unfoldable pub read_items : List Item → Option (Bool × List Row)
read_items [] = some (false, [])
read_items (ok_result affected inserted ∷ items) =
    set_ok (add_rows (result_rows affected inserted) (read_items items))
read_items (row r ∷ items) = add_rows (r ∷ []) (read_items items)
read_items (failure ∷ items) = none

abbrev is_textual : Cell → Bool
is_textual (text s) = true
is_textual _ = false

unfoldable pub all_textual : Row → Bool
all_textual [] = true
all_textual (v ∷ r) = let rest = all_textual r in if is_textual v then rest else false

-- The loop of a query with bindings: an error adds an empty row, and a value that is no text is a
-- panic, `none`.
unfoldable pub read_bound : List Item → Option (Bool × List Row)
read_bound [] = some (false, [])
read_bound (ok_result affected inserted ∷ items) =
    set_ok (add_rows (result_rows affected inserted) (read_bound items))
read_bound (row r ∷ items) =
    let rest = add_rows (r ∷ []) (read_bound items) in if all_textual r then rest else none
read_bound (failure ∷ items) = add_rows ([] ∷ []) (read_bound items)

abbrev pub with_table : List (Text × Text) → Bool × List Row → Answer
with_table columns (true, matrix) = answer (codes "ok") [] matrix
with_table columns (false, matrix) = answer (source_of columns) (column_names columns) matrix

abbrev pub rows_or_error : List (Text × Text) → Option (Bool × List Row) → Answer
rows_or_error columns none = error
rows_or_error columns (some rows) = with_table columns rows

abbrev pub rows_or_panic : List (Text × Text) → Option (Bool × List Row) → Option Answer
rows_or_panic columns none = none
rows_or_panic columns (some rows) = some (with_table columns rows)

-- `Query`
unfoldable pub query : Option Cursor → Answer
query none = error
query (some c) =
    if is_empty c.columns then answer [] [] [] else rows_or_error c.columns (read_items c.items)

-- `QueryWithBindings`; `none` is a panic.
unfoldable pub query_with_bindings : Option Cursor → Option Answer
query_with_bindings none = some error
query_with_bindings (some c) =
    if is_empty c.columns
    then some (answer [] [] [])
    else rows_or_panic c.columns (read_bound c.items)
