-- ===== src/Flow/Persist.antt =====
-- `vaultPersistPushRemoteChanges` of atrium/trcflow/core/context_helper.go, from the removal of the
-- changed rows on. What the flow calls is a parameter, and what it has done so far is a list.
pub mod Steps
pub mod Allowed
pub mod Seeded
use tierceron.Base.{
  ℕ, Bool, true, false, not, ◌&&◌, ◌||◌, Option, none, some, List, [], ◌∷◌, ◌++◌, length, ◌==◌,
  drop, if◌then◌else◌,
}
use tierceron.GoStrings.{Text, codes, text_eq, is_empty, contains, has_suffix}
use tierceron.GoStrings.Equality.{mem_text}
use tierceron.ChangeTracking.{Cell, text, int64, int, other, Row}
use tierceron.ChangeTracking.Queries.{
  get_insert_change_query, get_statistic_insert_change_query, get_statistic_changed_by_id_query,
  remove_element_from_slice,
}
use tierceron.ChangeTracking.Removal.{
  Engine, Process, Removal, removed, failed, panicked, blocked, remove_changes, as_text,
}
use tierceron.Flow.{RowMap, Found}
use tierceron.Flow.Effects.{
  Settings, Effect, asked, pushed, deleted, seeded, alerted, Calls, add, nil_id, deletion,
  index_map, row_map,
}

-- the path that a deleted row is deleted at
unfoldable pub delete_path : Settings → Text → Text
delete_path f path =
    let indexed = codes "Index/" ++ (f.source ++ path) in
    if contains path (codes "/PublicIndex/")
    then path
    else if has_suffix indexed f.table
    then indexed
    else indexed ++ (codes "/" ++ f.table)

abbrev pub delete_indexed : Settings → Text × Bool → List Effect → List Effect
delete_indexed f (path, true) s = s
delete_indexed f (path, false) s = if f.read_only then s else add (deleted (delete_path f path)) s

abbrev pub push_mode : Settings → Bool
push_mode f =
    not f.is_stopped
    && ((text_eq f.sync_mode (codes "push") || text_eq f.sync_mode (codes "pushonce"))
        && f.has_push)

abbrev pub delete_mapped : Calls → Settings → Option RowMap → List Effect → Option (List Effect)
delete_mapped w f none s = none
delete_mapped w f (some m) s = some (delete_indexed f (w.index_path (length s) f.index_names m) s)

-- a changed row that is in the table no more
unfoldable pub persist_deleted :
    Calls → Settings → Row → List Text → List Effect → Option (List Effect)
persist_deleted w f entry columns s =
    let told = if push_mode f then add (pushed (deletion columns)) s else s in
    if mem_text f.table w.synced_tables
    then delete_mapped w f (index_map f.index_names entry) told
    else some s

-- a changed row of three texts is put back; three values of other types are a panic
abbrev pub put_statistic_back : Settings → Row → List Effect → Option (List Effect)
put_statistic_back f (text v ∷ text x ∷ text y ∷ []) s =
    some (add (asked (get_statistic_insert_change_query f.database f.change_table v x y)) s)
put_statistic_back f entry s = if length entry == 3 then none else some s

-- the changed row is put back when its path is not found
unfoldable pub put_row_back : Settings → Row → Text → List Effect → Option (List Effect)
put_row_back f entry path s =
    if contains path (codes "PublicIndex")
    then put_statistic_back f entry s
    else some (add (asked (get_insert_change_query f.database f.change_table nil_id)) s)

unfoldable pub cell_of : Text → RowMap → Option Cell
cell_of name [] = none
cell_of name ((n, v) ∷ rest) =
    let later = cell_of name rest in if text_eq n name then some v else later

abbrev pub alert_of : Option Cell → Bool → List Effect → List Effect
alert_of (some (text a)) true s = add (alerted a) s
alert_of _ _ s = s

-- The alert of a change to the state of a flow. The channel holds one alert and the send waits for
-- room in it; here it is taken to find some.
unfoldable pub send_alert : Settings → RowMap → List Effect → List Effect
send_alert f m s =
    if text_eq f.identity (codes "flowName")
    then alert_of (cell_of f.identity m) f.has_alerts s
    else s

-- The seeding of the vault; after an error, nil is asserted to be a text.
unfoldable pub seed_row : Calls → Settings → Text → RowMap → List Effect → Option (List Effect)
seed_row w f path m s =
    let error = w.seed (length s) path m in
    if f.read_only then some s else if error then none else some (add (seeded path m error) s)

abbrev pub push_row : Settings → RowMap → Option (List Effect) → Option (List Effect)
push_row f m none = none
push_row f m (some s) = if f.push_enabled && f.has_push then some (add (pushed m) s) else some s

abbrev pub persist_indexed :
    Calls → Settings → Row → RowMap → Text × Bool → List Effect → Option (List Effect)
persist_indexed w f entry m (path, true) s = put_row_back f entry path s
persist_indexed w f entry m (path, false) s =
    if is_empty path then some s else push_row f m (seed_row w f path m (send_alert f m s))

abbrev pub persist_mapped :
    Calls → Settings → Row → Option RowMap → List Effect → Option (List Effect)
persist_mapped w f entry none s = none
persist_mapped w f entry (some m) s =
    persist_indexed w f entry m (w.index_path (length s) f.index_names m) s

-- a changed row, once it has been looked up
unfoldable pub persist_found :
    Calls → Settings → Row → Option Found → List Effect → Option (List Effect)
persist_found w f entry none s = some s
persist_found w f entry (some (columns, [])) s =
    if length entry == 3 then some s else persist_deleted w f entry columns s
persist_found w f entry (some (columns, row ∷ rows)) s =
    persist_mapped w f entry (row_map columns row) s

-- What building the query of a changed row leaves in the arrays of the index columns and of the
-- row: the first value, where it is a text, is taken out and put back at the end, and the identity
-- column with it; where there is no identity column among the names, only the value is taken out.
unfoldable pub rotated : Text → List Text → Row → List Text × Row
rotated id names (text s ∷ values) =
    let (others, taken) = remove_element_from_slice names id in
    if is_empty taken
    then (others ++ drop (length others) names, values ++ drop (length values) (text s ∷ values))
    else (others ++ taken ∷ [], values ++ text s ∷ [])
rotated id names entry = (names, entry)

abbrev pub persist_query : Calls → Settings → Row → Option Text → List Effect → Option (List Effect)
persist_query w f entry none s = none
persist_query w f entry (some q) s = persist_found w f entry (w.find (length s) q) (add (asked q) s)

abbrev pub after_query : Settings → Row → Settings × Row
after_query f entry =
    let (names, values) = rotated f.identity f.index_names entry in
    (record f { index_names = names }, values)

-- one changed row; `none` is a panic
unfoldable pub persist_entry : Calls → Settings → Row → List Effect → Option (List Effect)
persist_entry w f entry s =
    persist_query w (after_query f entry).0 (after_query f entry).1
      (get_statistic_changed_by_id_query f.database f.table f.identity f.index_names entry) s

abbrev pub and_then :
    Option (List Effect) → (List Effect → Option (List Effect)) → Option (List Effect)
and_then none k = none
and_then (some s) k = k s

-- The loop over the changed rows, which share the array of the names.
unfoldable pub persist_entries : Calls → Settings → List Row → List Effect → Option (List Effect)
persist_entries w f [] s = some s
persist_entries w f (entry ∷ entries) s =
    and_then (persist_entry w f entry s) (persist_entries w (after_query f entry).0 entries)

-- the order that the names are left in
unfoldable pub names_after : Text → List Text → List Row → List Text
names_after id names [] = names
names_after id names (entry ∷ entries) = names_after id (rotated id names entry).0 entries

-- A call returns with its effects and the order of the names, or with the error of the removal,
-- panics, or waits for ever.
pub data Persisted : Type 0 where
  persisted : List Effect → List Text → Process → Persisted
  not_removed : Process → Persisted
  broken : Process → Persisted
  waiting : Persisted

abbrev pub finished : Option (List Effect) → List Text → Process → Persisted
finished none names p = broken p
finished (some s) names p = persisted s names p

abbrev pub after_removal : Calls → Settings → Removal → Persisted
after_removal w f (removed entries p) =
    finished (persist_entries w f entries []) (names_after f.identity f.index_names entries) p
after_removal w f (failed p) = not_removed p
after_removal w f (panicked p) = broken p
after_removal w f blocked = waiting

-- `vaultPersistPushRemoteChanges`
unfoldable pub vault_persist_push_remote_changes : Engine → Calls → Settings → Process → Persisted
vault_persist_push_remote_changes engine w f p =
    after_removal w f (remove_changes engine f.database f.change_table f.identity f.index_names p)
