-- ===== src/Flow/Calls/Told.antt =====
-- A call whose statement returns rows tells the flows.
use mathlib.Core.Path.{subst}
use tierceron.Base.{
  ◌≡◌, ◌⊎◌, inl, inr, refl, ◌∙◌, Bool, true, false, not, ◌&&◌, ◌||◌, Option, none, some, List, [],
  ◌∷◌, ◌++◌, arith, if_cases, length,
}
use tierceron.GoStrings.{Text, codes, text_eq, is_empty}
use tierceron.ChangeTracking.{Row}
use tierceron.Flow.Rows.{answer, query}
use tierceron.Flow.Calls.{
  Database, QueryMap, Caller, Sent, sent_statement, change_statement, insert_change, tell_all,
  announce, Outcome, insert_outcome, update_outcome, Called, reported, report, call_db_query,
}
use tierceron.Flow.Calls.Announced.{targets, tell_all-targets, insert_change-notified}

-- a call that does not panic reports a change and tells it to its targets
abbrev Tells : Caller → List Text → Text → Sent → Called → Type 0
Tells c flows state before none = Unit
Tells c flows state before (some (rows, changed, after)) =
    (changed ≡ true) × (after.notified ≡ before.notified ++ targets c flows state)

reported-Tells :
    (c : Caller) (flows : List Text) (state : Text) (s : Sent) (b : Bool) (o : Option Sent)
    → b ≡ true
    → ((t : Sent) → o ≡ some t → t.notified ≡ s.notified ++ targets c flows state)
    → Tells c flows state s (reported b o)
reported-Tells c flows state s b none e h = tt
reported-Tells c flows state s b (some t) e h = (e, h t refl)

report-Tells :
    (db : Database) (c : Caller) (q : QueryMap) (flows : List Text) (state : Text) (before : Sent)
    (o : Outcome) (s : Sent)
    → s.notified ≡ before.notified
    → o.changed ≡ true
    → is_empty o.matrix ≡ false
    → Tells c flows state before (report db c q flows state o s)
unfolding report announce
report-Tells db c q flows state before o s same h n =
    let inserted = insert_change db (change_statement c q) s in
    if_cases (Tells c flows state before)
      (o.changed && (not (is_empty o.matrix) || not (is_empty o.table)))
      (reported o.changed (tell_all c flows state inserted)) (some ([], o.changed, s))
      (λ e.
        reported-Tells c flows state before o.changed (tell_all c flows state inserted) h (λ t k.
          tell_all-targets c flows state inserted before t k
            (λ u l. insert_change-notified db (change_statement c q) s u l ∙ same)))
      (λ e. absurd (ground (arith, e, h, n)))

-- The statements that may change a table.
abbrev pub IsChange : Text → Type 0
IsChange operation =
    (text_eq operation (codes "INSERT") ≡ true)
    ⊎ ((text_eq operation (codes "INSERT") ≡ false)
        × ((text_eq operation (codes "DELETE") || text_eq operation (codes "UPDATE")) ≡ true))

-- If a statement without bindings that may change a table returns rows, and the caller expects a
-- change, then a call that does not panic reports the change and tells it to every flow with a
-- channel among those that are named and, in a test, among those of its state.
pub call_db_query-Tells :
    (db : Database) (c : Caller) (q : QueryMap) (operation : Text) (flows : List Text)
    (state : Text) (s : Sent) (table : Text) (columns : List Text) (r : Row) (rows : List Row)
    (out : List Row) (reports : Bool) (after : Sent)
    → is_empty q.code ≡ false
    → IsChange operation
    → query (db (length s.statements) (record { code = q.code; bindings = none }))
      ≡ answer table columns (r ∷ rows)
    → call_db_query db c q none true operation flows state s ≡ some (out, reports, after)
    → (reports ≡ true) × (after.notified ≡ s.notified ++ targets c flows state)
unfolding call_db_query insert_outcome update_outcome
call_db_query-Tells db c q operation flows state s table columns r rows out reports after n op a e =
    let sent = sent_statement (record { code = q.code; bindings = none }) s in
    let told = λ (o : Outcome). report-Tells db c q flows state s o sent refl in
    subst (Tells c flows state s) e (elim op [
      | inl i ↦
          rw (n, i, a) (told (insert_outcome true (answer table columns (r ∷ rows))) refl refl)
      | inr (i, u) ↦
          rw (n, i, u, a)
            (if_cases (λ o. Tells c flows state s (report db c q flows state o sent))
              (text_eq table (codes "ok")) _ _ (λ _. told _ refl refl) (λ _. told _ refl refl))
    ])
