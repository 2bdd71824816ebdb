-- ===== src/Flow/Calls/Announced.antt =====
-- Which flows a call tells of a change.
use tierceron.Base.{
  ◌≡◌, ◌⊎◌, inl, inr, refl, ap, ◌∙◌, Bool, true, not, ◌&&◌, ◌||◌, Option, none, some, List, [],
  ◌++◌, arith, if_cases, Bool-cases, if◌then◌else◌, length, append_assoc,
}
use mathlib.Core.Path.{subst}
use tierceron.GoStrings.{Text, codes, text_eq, is_empty}
use tierceron.ChangeTracking.{Row}
use tierceron.Flow.Rows.{Cursor, Answer, query, query_with_bindings}
use tierceron.Flow.Calls.{
  Statement, Database, QueryMap, Caller, Sent, sent_statement, change_statement, insert_change,
  known, tell, tell_all, announce, Outcome, insert_outcome, bound_insert_outcome, update_outcome,
  bound_update_outcome, Called, reported, report, report_bound, run_statement, call_db_query,
}

-- The flows with a channel that a change is told to: those that are named, and in a test those that
-- belong to its state.
unfoldable pub targets : Caller → List Text → Text → List Text
targets c flows state =
    if is_empty state
    then known c.channels flows
    else known c.channels flows ++ known c.channels (c.additional state)

-- A call is quiet, or it reports a change and tells it to its targets, each once and in order.
abbrev pub Announces : Caller → List Text → Text → Sent → Bool → Sent → Type 0
Announces c flows state before changed after =
    (after.notified ≡ before.notified)
    ⊎ ((changed ≡ true) × (after.notified ≡ before.notified ++ targets c flows state))

-- the same of a call that does not panic
abbrev CallAnnounces : Caller → List Text → Text → Sent → Called → Type 0
CallAnnounces c flows state before none = Unit
CallAnnounces c flows state before (some (rows, changed, after)) =
    Announces c flows state before changed after

pub insert_change-notified :
    (db : Database) (o : Option Statement) (s t : Sent)
    → insert_change db o s ≡ some t
    → t.notified ≡ s.notified
insert_change-notified db none s t h = ground arith
insert_change-notified db (some q) s t h = ground arith

pub tell_all-targets :
    (c : Caller) (flows : List Text) (state : Text) (o : Option Sent) (s t : Sent)
    → tell_all c flows state o ≡ some t
    → ((u : Sent) → o ≡ some u → u.notified ≡ s.notified)
    → t.notified ≡ s.notified ++ targets c flows state
unfolding targets
tell_all-targets c flows state none s t h k = cc
tell_all-targets c flows state (some u) s t h k =
    let same = k u refl in
    let named = known c.channels flows in
    let added = known c.channels (c.additional state) in
    elim (Bool-cases (is_empty state)) [
      | inl e ↦
          let told : t ≡ tell named u = ground (arith, e, h) in
          rw e (ap (λ (x : Sent). x.notified) told ∙ ap (λ n. n ++ named) same)
      | inr e ↦
          let told : t ≡ tell added (tell named u) = ground (arith, e, h) in
          rw e (
            ap (λ (x : Sent). x.notified) told
            ∙ append_assoc u.notified named added
            ∙ ap (λ n. n ++ (named ++ added)) same)
    ]

reported-Announces :
    (c : Caller) (flows : List Text) (state : Text) (s : Sent) (b : Bool) (o : Option Sent)
    → b ≡ true
    → ((t : Sent) → o ≡ some t → t.notified ≡ s.notified ++ targets c flows state)
    → CallAnnounces c flows state s (reported b o)
reported-Announces c flows state s b none e h = tt
reported-Announces c flows state s b (some t) e h = inr (e, h t refl)

report-Announces :
    (db : Database) (c : Caller) (q : QueryMap) (flows : List Text) (state : Text) (before : Sent)
    (o : Outcome) (s : Sent)
    → s.notified ≡ before.notified
    → CallAnnounces c flows state before (report db c q flows state o s)
unfolding report announce
report-Announces db c q flows state before o s same =
    let inserted = insert_change db (change_statement c q) s in
    let told = tell_all c flows state inserted in
    if_cases (CallAnnounces c flows state before)
      (o.changed && (not (is_empty o.matrix) || not (is_empty o.table))) (reported o.changed told)
      (some ([], o.changed, s))
      (λ e. reported-Announces c flows state before o.changed told (ground arith) (λ t h.
        tell_all-targets c flows state inserted before t h
          (λ u k. insert_change-notified db (change_statement c q) s u k ∙ same)))
      (λ e. inl same)

report_bound-Announces :
    (c : Caller) (flows : List Text) (state : Text) (before : Sent) (bound : Answer → Outcome)
    (k : Outcome → Sent → Called) (o : Option Answer) (s : Sent)
    → ((o : Outcome) → CallAnnounces c flows state before (k o s))
    → CallAnnounces c flows state before (report_bound bound k o s)
report_bound-Announces c flows state before bound k none s h = tt
report_bound-Announces c flows state before bound k (some a) s h = h (bound a)

announced_of :
    (c : Caller) (flows : List Text) (state : Text) (s : Sent) (o : Called) (rows : List Row)
    (reports : Bool) (after : Sent)
    → o ≡ some (rows, reports, after)
    → CallAnnounces c flows state s o
    → Announces c flows state s reports after
announced_of c flows state s o rows reports after e h = subst (CallAnnounces c flows state s) e h

run_statement-Announces :
    (c : Caller) (flows : List Text) (state : Text) (before : Sent) (plain bound : Answer → Outcome)
    (k : Outcome → Sent → Called) (cursor : Option Cursor) (bindings : Option (List (Text × Text)))
    (s : Sent)
    → ((o : Outcome) → CallAnnounces c flows state before (k o s))
    → CallAnnounces c flows state before (run_statement plain bound k cursor bindings s)
run_statement-Announces c flows state before plain bound k cursor none s h =
    h (plain (query cursor))
run_statement-Announces c flows state before plain bound k cursor (some b) s h =
    report_bound-Announces c flows state before bound k (query_with_bindings cursor) s h

-- A call that does not panic tells no flow, or it reports a change and tells it to every flow with a
-- channel among those that are named and, in a test, among those of its state, in their order.
pub call_db_query-Announces :
    (db : Database) (c : Caller) (q : QueryMap) (bindings : Option (List (Text × Text)))
    (changed : Bool) (operation : Text) (flows : List Text) (state : Text) (s : Sent)
    (rows : List Row) (reports : Bool) (after : Sent)
    → call_db_query db c q bindings changed operation flows state s ≡ some (rows, reports, after)
    → Announces c flows state s reports after
unfolding call_db_query
call_db_query-Announces db c q bindings changed operation flows state s rows reports after e =
    let P = CallAnnounces c flows state s in
    let first : Statement = record { code = q.code; bindings = bindings } in
    let sent = sent_statement first s in
    let next = report db c q flows state in
    let cursor = db (length s.statements) first in
    let h = λ (o : Outcome). report-Announces db c q flows state s o sent refl in
    let insert =
      run_statement-Announces c flows state s (insert_outcome changed)
        (bound_insert_outcome changed) next cursor bindings sent h in
    let update =
      run_statement-Announces c flows state s (update_outcome changed)
        (bound_update_outcome changed) next cursor bindings sent h in
    announced_of c flows state s (call_db_query db c q bindings changed operation flows state s)
      rows reports after e
      (if_cases P (is_empty q.code) _ _ (λ _. inl refl)
        (λ _.
          if_cases P (text_eq operation (codes "INSERT")) _ _ (λ _. insert)
            (λ _.
              if_cases P (text_eq operation (codes "DELETE") || text_eq operation (codes "UPDATE"))
                _ _ (λ _. update)
                (λ _.
                  if_cases P (text_eq operation (codes "SELECT")) _ _ (λ _. inl refl)
                    (λ _. inl refl)))))
