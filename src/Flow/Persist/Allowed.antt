-- ===== src/Flow/Persist/Allowed.antt =====
-- What a flow may do to the vault and to its remote data source.
use tierceron.Base.{
  Bool, true, false, Option, none, some, List, [], ◌∷◌, All, if_cases, length, ◌==◌,
}
use tierceron.GoStrings.{Text, is_empty}
use tierceron.ChangeTracking.{Row}
use tierceron.ChangeTracking.Queries.{get_statistic_changed_by_id_query}
use tierceron.ChangeTracking.Removal.{
  Engine, Process, Removal, removed, failed, panicked, blocked, remove_changes,
}
use tierceron.Flow.{RowMap, Found}
use tierceron.Flow.Effects.{Settings, Effect, asked, Calls, add, row_map}
use tierceron.Flow.Persist.{
  persist_deleted, send_alert, seed_row, push_row, persist_indexed, persist_mapped, persist_found,
  persist_query, after_query, persist_entry, and_then, persist_entries, Persisted, persisted,
  not_removed, broken, waiting, finished, after_removal, vault_persist_push_remote_changes,
  names_after,
}
use tierceron.Flow.Persist.Steps.{
  Allowed, AllAllowed, add-Allowed, persist_deleted-Allowed, put_row_back-Allowed,
  send_alert-Allowed, seed_row-Allowed, push_row-Allowed,
}

persist_indexed-Allowed :
    (w : Calls) (f : Settings) (entry : Row) (m : RowMap) (found : Text × Bool) (s : List Effect)
    → All (Allowed f) s
    → AllAllowed f (persist_indexed w f entry m found s)
persist_indexed-Allowed w f entry m (path, true) s h = put_row_back-Allowed f entry path s h
persist_indexed-Allowed w f entry m (path, false) s h =
    let sent = send_alert f m s in
    if_cases (AllAllowed f) (is_empty path) (some s) (push_row f m (seed_row w f path m sent))
      (λ e. h)
      (λ e.
        push_row-Allowed f m (seed_row w f path m sent)
          (seed_row-Allowed w f path m sent (send_alert-Allowed f m s h)))

persist_mapped-Allowed :
    (w : Calls) (f : Settings) (entry : Row) (m : Option RowMap) (s : List Effect)
    → All (Allowed f) s
    → AllAllowed f (persist_mapped w f entry m s)
persist_mapped-Allowed w f entry none s h = tt
persist_mapped-Allowed w f entry (some m) s h =
    persist_indexed-Allowed w f entry m (w.index_path (length s) f.index_names m) s h

persist_found-Allowed :
    (w : Calls) (f : Settings) (entry : Row) (o : Option Found) (s : List Effect)
    → All (Allowed f) s
    → AllAllowed f (persist_found w f entry o s)
unfolding persist_found
persist_found-Allowed w f entry none s h = h
persist_found-Allowed w f entry (some (columns, [])) s h =
    if_cases (AllAllowed f) (length entry == 3) (some s) (persist_deleted w f entry columns s)
      (λ e. h) (λ e. persist_deleted-Allowed w f entry columns s h)
persist_found-Allowed w f entry (some (columns, row ∷ rows)) s h =
    persist_mapped-Allowed w f entry (row_map columns row) s h

persist_query-Allowed :
    (w : Calls) (f : Settings) (entry : Row) (q : Option Text) (s : List Effect)
    → All (Allowed f) s
    → AllAllowed f (persist_query w f entry q s)
persist_query-Allowed w f entry none s h = tt
persist_query-Allowed w f entry (some q) s h =
    persist_found-Allowed w f entry (w.find (length s) q) (add (asked q) s)
      (add-Allowed f (asked q) s h tt)

and_then-Allowed :
    (f : Settings) (o : Option (List Effect)) (k : List Effect → Option (List Effect))
    → AllAllowed f o
    → ((s : List Effect) → All (Allowed f) s → AllAllowed f (k s))
    → AllAllowed f (and_then o k)
and_then-Allowed f none k h n = tt
and_then-Allowed f (some s) k h n = n s h

persist_entry-Allowed :
    (w : Calls) (f : Settings) (entry : Row) (s : List Effect)
    → All (Allowed f) s
    → AllAllowed f (persist_entry w f entry s)
unfolding persist_entry
persist_entry-Allowed w f entry s h =
    let (g, values) = after_query f entry in
    let q = get_statistic_changed_by_id_query f.database f.table f.identity f.index_names entry in
    persist_query-Allowed w g values q s h

persist_entries-Allowed :
    (w : Calls) (f : Settings) (entries : List Row) (s : List Effect)
    → All (Allowed f) s
    → AllAllowed f (persist_entries w f entries s)
unfolding persist_entries
persist_entries-Allowed w f [] s h = h
persist_entries-Allowed w f (entry ∷ entries) s h =
    let next = (after_query f entry).0 in
    and_then-Allowed f (persist_entry w f entry s) (persist_entries w next entries)
      (persist_entry-Allowed w f entry s h) (λ t k. persist_entries-Allowed w next entries t k)

-- what a call that returns has done is allowed
abbrev pub EffectsAllowed : Settings → Persisted → Type 0
EffectsAllowed f (persisted s names p) = All (Allowed f) s
EffectsAllowed f (not_removed p) = Unit
EffectsAllowed f (broken p) = Unit
EffectsAllowed f waiting = Unit

finished-Allowed :
    (f : Settings) (o : Option (List Effect)) (names : List Text) (p : Process)
    → AllAllowed f o
    → EffectsAllowed f (finished o names p)
finished-Allowed f none names p h = tt
finished-Allowed f (some s) names p h = h

after_removal-Allowed :
    (w : Calls) (f : Settings) (r : Removal) → EffectsAllowed f (after_removal w f r)
after_removal-Allowed w f (removed entries p) =
    finished-Allowed f (persist_entries w f entries [])
      (names_after f.identity f.index_names entries) p (persist_entries-Allowed w f entries [] tt)
after_removal-Allowed w f (failed p) = tt
after_removal-Allowed w f (panicked p) = tt
after_removal-Allowed w f blocked = tt

-- A call that returns has written to the vault only if the flow is not read-only, every seeding of
-- it has succeeded; it has pushed rows only if there is a function that pushes, and sent alerts only
-- if its identity column is `flowName` and there is a channel of alerts.
pub persist-EffectsAllowed :
    (engine : Engine) (w : Calls) (f : Settings) (p : Process)
    → EffectsAllowed f (vault_persist_push_remote_changes engine w f p)
unfolding vault_persist_push_remote_changes
persist-EffectsAllowed engine w f p =
    after_removal-Allowed w f
      (remove_changes engine f.database f.change_table f.identity f.index_names p)
