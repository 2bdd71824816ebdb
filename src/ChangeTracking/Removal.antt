-- ===== src/ChangeTracking/Removal.antt =====
-- The three functions that read the changed rows of a table and delete them, under a lock of the
-- whole process. The database is a parameter: a function from the number of queries so far and a
-- query to the rows, or to an error.
pub mod Locking
use tierceron.Base.{
  ℕ, suc, Bool, true, false, Option, none, some, List, [], ◌∷◌, ◌++◌, length, get_elem?, ◌==◌,
  if◌then◌else◌,
}
use tierceron.GoStrings.{Text}
use tierceron.ChangeTracking.{Cell, text, int64, int, other, Row}
use tierceron.ChangeTracking.Queries.{
  get_change_id_query, get_delete_change_query, get_composite_change_id_query,
  get_composite_delete_change_query, get_statistic_change_id_query,
  get_statistic_delete_change_query,
}

abbrev pub Engine : Type 0
Engine = ℕ → Text → Option (List Row)

-- Whether `changesLock` is held, and the queries so far.
pub record Process : Type 0 where
  pub locked : Bool
  pub queries : List Text

-- A call returns, with the rows or with an error, panics, or waits for ever.
pub data Removal : Type 0 where
  removed : List Row → Process → Removal
  failed : Process → Removal
  panicked : Process → Removal
  blocked : Removal

-- `trcdb.Query`
abbrev pub query : Engine → Text → Process → Option (List Row) × Process
query engine q p = (engine (length p.queries) q, record p { queries = p.queries ++ q ∷ [] })

abbrev pub unlock : Process → Process
unlock p = record p { locked = false }

abbrev after_delete : Option (List Row) → Process → Removal → Removal
after_delete none p rest = failed p
after_delete (some rows) p rest = rest

-- The loop over the rows, each with its query or a panic, and the unlock behind it.
unfoldable pub delete_rows : Engine → List Row → List (Option Text) → Process → Removal
delete_rows engine rows [] p = removed rows (unlock p)
delete_rows engine rows (none ∷ deletes) p = panicked p
delete_rows engine rows (some q ∷ deletes) p =
    let (answer, p') = query engine q p in
    after_delete answer p' (delete_rows engine rows deletes p')

abbrev pub deletes_of : (Row → Option Text) → List Row → List (Option Text)
deletes_of delete [] = []
deletes_of delete (row ∷ rows) = delete row ∷ deletes_of delete rows

abbrev pub with_rows : Engine → (Row → Option Text) → Option (List Row) → Process → Removal
with_rows engine delete none p = failed p
with_rows engine delete (some rows) p = delete_rows engine rows (deletes_of delete rows) p

abbrev pub select_rows : Engine → (Row → Option Text) → Option Text → Process → Removal
select_rows engine delete none p = panicked p
select_rows engine delete (some q) p =
    let (answer, p') = query engine q p in with_rows engine delete answer p'

-- The common course of the three functions, from the lock on.
unfoldable pub remove_entries : Engine → Option Text → (Row → Option Text) → Process → Removal
remove_entries engine select delete p =
    if p.locked then blocked else select_rows engine delete select (record p { locked = true })

-- the text of a value that is asserted to be one
abbrev pub as_text : Option Cell → Option Text
as_text none = none
as_text (some (text s)) = some s
as_text (some (int64 i)) = none
as_text (some (int i)) = none
as_text (some (other s d)) = none

abbrev bind {ℓ} : {A : Type ℓ} → Option A → (A → Option Text) → Option Text
bind none k = none
bind (some x) k = k x

abbrev cell : ℕ → Row → Option Cell
cell i row = get_elem? row i

abbrev pub delete_single : Text → Text → Row → Option Text
delete_single database table row =
    bind (cell 0 row) (λ id. some (get_delete_change_query database table id))

-- `removeChangedTableEntries`
unfoldable pub remove_changed_table_entries : Engine → Text → Text → Process → Removal
remove_changed_table_entries engine database table =
    remove_entries engine (some (get_change_id_query database table)) (delete_single database table)

abbrev delete_composite : Text → Text → List Text → Row → Option Text
delete_composite database table names row = bind (as_text (cell 0 row)) (λ x.
    bind (as_text (cell 1 row)) (λ y. get_composite_delete_change_query database table names x y))

-- `removeCompositeKeyChangedTableEntries`
unfoldable pub remove_composite_key_changed_table_entries :
    Engine → Text → Text → List Text → Process → Removal
remove_composite_key_changed_table_entries engine database table names =
    remove_entries engine (get_composite_change_id_query database table names)
      (delete_composite database table names)

abbrev delete_statistic : Text → Text → Text → List Text → Row → Option Text
delete_statistic database table id names row = bind (as_text (cell 1 row)) (λ x.
    bind (as_text (cell 2 row)) (λ y.
      bind (as_text (cell 0 row))
        (λ v. get_statistic_delete_change_query database table id v names x y)))

-- `removeStatisticChangedTableEntries`
unfoldable pub remove_statistic_changed_table_entries :
    Engine → Text → Text → Text → List Text → Process → Removal
remove_statistic_changed_table_entries engine database table id names =
    remove_entries engine (get_statistic_change_id_query database table id names)
      (delete_statistic database table id names)

-- The choice of `vaultPersistPushRemoteChanges` by the number of index columns.
unfoldable pub remove_changes : Engine → Text → Text → Text → List Text → Process → Removal
remove_changes engine database table id names p =
    let statistic = remove_statistic_changed_table_entries engine database table id names p in
    let composite = remove_composite_key_changed_table_entries engine database table names p in
    let single = remove_changed_table_entries engine database table p in
    if length names == 3 then statistic else if length names == 2 then composite else single
