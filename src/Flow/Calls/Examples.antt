-- ===== src/Flow/Calls/Examples.antt =====
-- Statements against a database of two answers, and the flows that are told of them.
use tierceron.Base.{zero, suc, ◌≡◌, inl, refl, true, none, some, List, [], ◌∷◌, ◌++◌}
use tierceron.GoStrings.{Text, codes, text_eq}
use tierceron.GoStrings.Equality.{mem_text}
use tierceron.ChangeTracking.{text, Row}
use tierceron.Flow.Rows.{
  Cursor, ok_result, row, failure, answer, query, query_with_bindings, read_items, read_bound,
  all_textual, column_names, source_of,
}
use tierceron.Flow.Rows.Agreement.{query_with_bindings-query}
use tierceron.Flow.Calls.{
  Database, QueryMap, Caller, Sent, one, call_db_query, insert_outcome, report, announce,
  change_statement, known,
}
use tierceron.Flow.Calls.Announced.{Announces, targets, call_db_query-Announces}
use tierceron.Flow.Calls.Told.{call_db_query-Tells}

abbrev two_rows : Cursor
two_rows = record {
  columns = (codes "id", codes "Tenant") ∷ [];
  items = row (text (codes "7") ∷ []) ∷ row (text (codes "8") ∷ []) ∷ [];
}

query_with_bindings-query_example :
    query_with_bindings (some two_rows) ≡ some (query (some two_rows))
unfolding all_textual
query_with_bindings-query_example = query_with_bindings-query two_rows (refl, (refl, tt))

-- An error of the cursor is an empty row of a query with bindings.
error_passed :
    query_with_bindings
      (some (record { columns = (codes "id", codes "Tenant") ∷ []; items = failure ∷ [] }))
    ≡ some (answer (codes "Tenant") (codes "id" ∷ []) ([] ∷ []))
unfolding query_with_bindings read_bound column_names source_of
error_passed = refl

abbrev inserting : Database
inserting zero q = some (record { columns = (codes "ok", []) ∷ []; items = ok_result 1 0 ∷ [] })
inserting (suc k) q = some (record { columns = []; items = [] })

abbrev caller : Caller
caller = record {
  database_name = codes "Db";
  change_table = codes "Tenant_Changes";
  channels = codes "Tenant" ∷ codes "Site" ∷ [];
  additional = λ state. codes "Site" ∷ [];
}

abbrev insertion_of : QueryMap
insertion_of = record {
  code = codes "INSERT INTO Db.Tenant VALUES (7)";
  change_id = one (codes "7");
  change_columns = none;
}

abbrev silent : Sent
silent = record { statements = []; notified = [] }

abbrev flows : List Text
flows = codes "Tenant" ∷ codes "Other" ∷ []

abbrev told : Sent
told = record {
  statements =
      record { code = insertion_of.code; bindings = none }
      ∷ record {
        code = codes "INSERT IGNORE INTO Db.Tenant_Changes VALUES (:id, current_timestamp())";
        bindings = some ((codes "id", codes "7") ∷ []);
      }
      ∷ [];
  notified = codes "Tenant" ∷ codes "Site" ∷ [];
}

called :
    call_db_query inserting caller insertion_of none true (codes "INSERT") flows (codes "on") silent
    ≡ some ([], true, told)
unfolding call_db_query insert_outcome report announce change_statement known query
    query_with_bindings read_items read_bound mem_text text_eq tierceron.ChangeTracking.concat
called = refl

call_db_query-Announces_example : Announces caller flows (codes "on") silent true told
call_db_query-Announces_example =
    call_db_query-Announces inserting caller insertion_of none true (codes "INSERT") flows
      (codes "on") silent [] true told called

call_db_query-Tells_example :
    (true ≡ true) × (told.notified ≡ silent.notified ++ targets caller flows (codes "on"))
unfolding query read_items text_eq
call_db_query-Tells_example =
    call_db_query-Tells inserting caller insertion_of (codes "INSERT") flows (codes "on") silent
      (codes "ok") [] [] [] [] true told refl (inl refl) refl called
