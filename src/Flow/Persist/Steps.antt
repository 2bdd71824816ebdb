-- ===== src/Flow/Persist/Steps.antt =====
-- What the single steps of a flow may do to the vault and to its remote data source.
use tierceron.Base.{
  ◌≡◌, refl, Bool, true, false, ◌&&◌, Option, none, some, List, [], ◌∷◌, arith, All, All-append,
  if_cases, if◌then◌else◌, length, ◌==◌,
}
use tierceron.GoStrings.{Text, codes, text_eq, contains}
use tierceron.GoStrings.Equality.{mem_text}
use tierceron.ChangeTracking.{Cell, text, Row}
use tierceron.ChangeTracking.Queries.{get_statistic_insert_change_query}
use tierceron.Flow.{RowMap}
use tierceron.Flow.Effects.{
  Settings, Effect, asked, pushed, deleted, seeded, alerted, Calls, add, deletion, index_map,
}
use tierceron.Flow.Persist.{
  delete_path, delete_indexed, push_mode, delete_mapped, persist_deleted, put_statistic_back,
  put_row_back, cell_of, alert_of, send_alert, seed_row, push_row,
}

-- The vault is written only by a flow that is not read-only and where the seeding has not failed,
-- a row is pushed only where there is a function that pushes, and an alert is sent only by a flow
-- that alerts.
abbrev pub AllowedBy : (read_only has_push alerts : Bool) → Effect → Type 0
AllowedBy read_only has_push alerts (asked q) = Unit
AllowedBy read_only has_push alerts (pushed m) = has_push ≡ true
AllowedBy read_only has_push alerts (deleted path) = read_only ≡ false
AllowedBy read_only has_push alerts (seeded path m error) = (read_only ≡ false) × (error ≡ false)
AllowedBy read_only has_push alerts (alerted a) = alerts ≡ true

-- a flow whose identity column is that of the flows' own table, where there is a channel of alerts
abbrev pub alerts_of : Settings → Bool
alerts_of f = text_eq f.identity (codes "flowName") && f.has_alerts

abbrev pub Allowed : Settings → Effect → Type 0
Allowed f = AllowedBy f.read_only f.has_push (alerts_of f)

-- the effects of a step that does not panic are allowed
abbrev pub AllAllowed : Settings → Option (List Effect) → Type 0
AllAllowed f none = Unit
AllAllowed f (some s) = All (Allowed f) s

pub add-Allowed :
    (f : Settings) (e : Effect) (s : List Effect)
    → All (Allowed f) s
    → Allowed f e
    → All (Allowed f) (add e s)
add-Allowed f e s h k = All-append (Allowed f) s (e ∷ []) h (k, tt)

delete_indexed-Allowed :
    (f : Settings) (found : Text × Bool) (s : List Effect)
    → All (Allowed f) s
    → All (Allowed f) (delete_indexed f found s)
delete_indexed-Allowed f (path, true) s h = h
delete_indexed-Allowed f (path, false) s h =
    if_cases (All (Allowed f)) f.read_only s (add (deleted (delete_path f path)) s) (λ e. h)
      (λ e. add-Allowed f (deleted (delete_path f path)) s h e)

delete_mapped-Allowed :
    (w : Calls) (f : Settings) (m : Option RowMap) (s : List Effect)
    → All (Allowed f) s
    → AllAllowed f (delete_mapped w f m s)
delete_mapped-Allowed w f none s h = tt
delete_mapped-Allowed w f (some m) s h =
    delete_indexed-Allowed f (w.index_path (length s) f.index_names m) s h

told-Allowed :
    (f : Settings) (columns : List Text) (s : List Effect)
    → All (Allowed f) s
    → All (Allowed f) (if push_mode f then add (pushed (deletion columns)) s else s)
told-Allowed f columns s h =
    if_cases (All (Allowed f)) (push_mode f) (add (pushed (deletion columns)) s) s
      (λ e. add-Allowed f (pushed (deletion columns)) s h (ground arith)) (λ e. h)

pub persist_deleted-Allowed :
    (w : Calls) (f : Settings) (entry : Row) (columns : List Text) (s : List Effect)
    → All (Allowed f) s
    → AllAllowed f (persist_deleted w f entry columns s)
unfolding persist_deleted
persist_deleted-Allowed w f entry columns s h =
    let told = if push_mode f then add (pushed (deletion columns)) s else s in
    if_cases (AllAllowed f) (mem_text f.table w.synced_tables)
      (delete_mapped w f (index_map f.index_names entry) told) (some s)
      (λ e.
        delete_mapped-Allowed w f (index_map f.index_names entry) told (told-Allowed f columns s h))
      (λ e. h)

put_statistic_back-Allowed :
    (f : Settings) (entry : Row) (s : List Effect)
    → All (Allowed f) s
    → AllAllowed f (put_statistic_back f entry s)
put_statistic_back-Allowed f (text v ∷ text x ∷ text y ∷ []) s h =
    add-Allowed f (asked (get_statistic_insert_change_query f.database f.change_table v x y)) s h tt
put_statistic_back-Allowed f entry s h =
    if_cases (AllAllowed f) (length entry == 3) none (some s) (λ e. tt) (λ e. h)

pub put_row_back-Allowed :
    (f : Settings) (entry : Row) (path : Text) (s : List Effect)
    → All (Allowed f) s
    → AllAllowed f (put_row_back f entry path s)
unfolding put_row_back
put_row_back-Allowed f entry path s h =
    if_cases (AllAllowed f) (contains path (codes "PublicIndex")) (put_statistic_back f entry s) _
      (λ e. put_statistic_back-Allowed f entry s h) (λ e. add-Allowed f _ s h tt)

alert_of-Allowed :
    (f : Settings) (a : Option Cell) (b : Bool) (s : List Effect)
    → (b ≡ true → alerts_of f ≡ true)
    → All (Allowed f) s
    → All (Allowed f) (alert_of a b s)
alert_of-Allowed f (some (text a)) true s k h = add-Allowed f (alerted a) s h (k refl)
alert_of-Allowed f _ _ s k h = h

pub send_alert-Allowed :
    (f : Settings) (m : RowMap) (s : List Effect)
    → All (Allowed f) s
    → All (Allowed f) (send_alert f m s)
unfolding send_alert
send_alert-Allowed f m s h =
    if_cases (All (Allowed f)) (text_eq f.identity (codes "flowName"))
      (alert_of (cell_of f.identity m) f.has_alerts s) s
      (λ e. alert_of-Allowed f (cell_of f.identity m) f.has_alerts s (λ k. ground (arith, e, k)) h)
      (λ e. h)

pub seed_row-Allowed :
    (w : Calls) (f : Settings) (path : Text) (m : RowMap) (s : List Effect)
    → All (Allowed f) s
    → AllAllowed f (seed_row w f path m s)
unfolding seed_row
seed_row-Allowed w f path m s h =
    let error = w.seed (length s) path m in
    let tried = if error then none else some (add (seeded path m error) s) in
    if_cases (AllAllowed f) f.read_only (some s) tried (λ e. h)
      (λ written.
        if_cases (AllAllowed f) error none (some (add (seeded path m error) s)) (λ e. tt)
          (λ e. add-Allowed f (seeded path m error) s h (written, e)))

pub push_row-Allowed :
    (f : Settings) (m : RowMap) (o : Option (List Effect))
    → AllAllowed f o
    → AllAllowed f (push_row f m o)
push_row-Allowed f m none h = tt
push_row-Allowed f m (some s) h =
    if_cases (AllAllowed f) (f.push_enabled && f.has_push) (some (add (pushed m) s)) (some s)
      (λ e. add-Allowed f (pushed m) s h (ground arith)) (λ e. h)
