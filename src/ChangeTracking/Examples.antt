-- ===== src/ChangeTracking/Examples.antt =====
-- The queries and the removals at concrete inputs.
use tierceron.Base.{
  zero, suc, ◌≡◌, refl, true, false, some, List, [], ◌∷◌, ◌++◌, if◌then◌else◌, pos,
}
use tierceron.GoStrings.{Text, codes, text_eq}
use tierceron.GoNumbers.{itoa, format_digits}
use tierceron.GoStrings.Equality.{mem_text}
use tierceron.ChangeTracking.{text, int64}
use tierceron.ChangeTracking.Queries.{
  get_change_id_query, get_delete_change_query, get_insert_change_query,
  get_statistic_changed_by_id_query,
}
use tierceron.ChangeTracking.Queries.Position.{query-position}
use tierceron.ChangeTracking.Removal.{
  Engine, Process, delete_single, deletes_of, delete_rows, remove_entries,
  remove_changed_table_entries, remove_changes,
}
use tierceron.ChangeTracking.Removal.Locking.{
  Leaves, all_some, remove_changes-Leaves, removed-deleted,
}
use tierceron.ChangeTracking.Triggers.{
  Tables, created, fatal, blocked, trigger_exists, new_triggers, create_table_triggers,
  create_given_triggers,
}
use tierceron.ChangeTracking.Triggers.Once.{create_table_triggers-once, triggers-on_error}

insert_number :
    get_insert_change_query (codes "db") (codes "t") (int64 (pos 7))
    ≡ codes "INSERT IGNORE INTO db.t VALUES (7, current_timestamp())"
unfolding get_insert_change_query itoa format_digits
insert_number = refl

query-position_example :
    get_statistic_changed_by_id_query
      (codes "db")
      (codes "t")
      (codes "id")
      (codes "a" ∷ codes "id" ∷ codes "b" ∷ [])
      (text (codes "7") ∷ text (codes "x") ∷ text (codes "y") ∷ [])
    ≡ get_statistic_changed_by_id_query
        (codes "db")
        (codes "t")
        (codes "id")
        (codes "id" ∷ codes "a" ∷ codes "b" ∷ [])
        (text (codes "7") ∷ text (codes "x") ∷ text (codes "y") ∷ [])
unfolding mem_text text_eq
query-position_example =
    query-position (codes "db") (codes "t") (codes "id") (codes "7") (codes "a" ∷ [])
      (codes "b" ∷ []) (text (codes "x") ∷ text (codes "y") ∷ []) refl

three_columns :
    get_statistic_changed_by_id_query
      (codes "db")
      (codes "t")
      (codes "id")
      (codes "a" ∷ codes "id" ∷ codes "b" ∷ [])
      (text (codes "7") ∷ text (codes "x") ∷ text (codes "y") ∷ [])
    ≡ some (codes "SELECT * FROM db.t WHERE id='7' AND a='x' AND b='y'")
unfolding get_statistic_changed_by_id_query text_eq
three_columns = refl

-- a database that reads one changed row, and deletes it
abbrev engine : Engine
engine zero q = some ((text (codes "7") ∷ []) ∷ [])
engine (suc n) q = some []

abbrev free : Process
free = record { locked = false; queries = [] }

remove_changes-Leaves_example :
    Leaves (remove_changes engine (codes "db") (codes "t") (codes "id") (codes "id" ∷ []) free)
remove_changes-Leaves_example =
    remove_changes-Leaves engine (codes "db") (codes "t") (codes "id") (codes "id" ∷ []) free refl

abbrev after : Process
after = record {
  locked = false;
  queries = codes "SELECT id FROM db.t" ∷ codes "DELETE FROM db.t WHERE id = '7'" ∷ [];
}

removed-deleted_example :
    (engine 0 (get_change_id_query (codes "db") (codes "t")) ≡ some ((text (codes "7") ∷ []) ∷ []))
    × ((qs : List Text) × (deletes_of
            (delete_single (codes "db") (codes "t"))
            ((text (codes "7") ∷ []) ∷ [])
          ≡ all_some qs)
        × (after.queries ≡ [] ++ get_change_id_query (codes "db") (codes "t") ∷ qs))
unfolding remove_changed_table_entries remove_entries delete_rows get_change_id_query
    get_delete_change_query
removed-deleted_example =
    removed-deleted engine (codes "db") (codes "t") free after ((text (codes "7") ∷ []) ∷ []) refl

abbrev tables : Tables
tables = record { locked = false; triggers = []; refuses = false }

create_table_triggers-once_example :
    (s : Tables) × (create_table_triggers (codes "db") (codes "t") (codes "id") tables ≡ created s)
    × (s.locked ≡ false)
    × (trigger_exists (codes "t") s.triggers ≡ true)
    × (create_table_triggers (codes "db") (codes "t") (codes "id") s ≡ created s)
create_table_triggers-once_example =
    create_table_triggers-once (codes "db") (codes "t") (codes "id") tables refl refl

abbrev refusing : Tables
refusing = record { locked = true; triggers = []; refuses = true }

triggers-on_error_example :
    (create_table_triggers (codes "db") (codes "t") (codes "id") refusing
      ≡ (if refusing.locked then blocked else fatal))
    × (create_given_triggers (codes "t") (codes "U") (codes "I") (codes "D") refusing ≡ (
        if refusing.locked
        then created (record refusing {
          locked = false;
          triggers =
              refusing.triggers ++ new_triggers (codes "t") (codes "U") (codes "I") (codes "D");
        })
        else fatal))
triggers-on_error_example =
    triggers-on_error (codes "db") (codes "t") (codes "id") (codes "U") (codes "I") (codes "D")
      refusing refl
