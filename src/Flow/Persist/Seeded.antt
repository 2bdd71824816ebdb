-- ===== src/Flow/Persist/Seeded.antt =====
-- The rows that a flow seeds into the vault when nothing that it calls fails.
use tierceron.Base.{
  ℕ, ◌≡◌, refl, sym, ap, ◌∙◌, Bool, true, false, ◌&&◌, Option, none, some, List, [], ◌∷◌, ◌++◌,
  arith, if_cases, length, append-nil, append_assoc,
}
use tierceron.GoStrings.{Text, codes, text_eq, is_empty}
use tierceron.ChangeTracking.{Cell, text, Row}
use tierceron.ChangeTracking.Queries.{get_statistic_changed_by_id_query}
use tierceron.Flow.{RowMap}
use tierceron.Flow.Effects.{
  Settings, Effect, asked, pushed, deleted, seeded, alerted, Calls, add, row_map,
}
use tierceron.Flow.Persist.{
  cell_of, alert_of, send_alert, seed_row, push_row, persist_indexed, persist_found, after_query,
  persist_entry, persist_entries,
}

-- the seedings among the effects of a flow
unfoldable pub seeds : List Effect → List (Text × RowMap)
seeds [] = []
seeds (asked q ∷ s) = seeds s
seeds (pushed m ∷ s) = seeds s
seeds (deleted path ∷ s) = seeds s
seeds (seeded path m error ∷ s) = (path, m) ∷ seeds s
seeds (alerted a ∷ s) = seeds s

seeds-append : (s t : List Effect) → seeds (s ++ t) ≡ seeds s ++ seeds t
unfolding seeds
seeds-append [] t = refl
seeds-append (asked q ∷ s) t = seeds-append s t
seeds-append (pushed m ∷ s) t = seeds-append s t
seeds-append (deleted path ∷ s) t = seeds-append s t
seeds-append (seeded path m error ∷ s) t = ap (λ r. (path, m) ∷ r) (seeds-append s t)
seeds-append (alerted a ∷ s) t = seeds-append s t

-- A changed row that is found in the table, with its columns, its path in the vault and a seeding
-- that succeeds, whenever the flow asks for them.
pub record Stored (w : Calls) (f : Settings) (entry : Row) (path : Text) (m : RowMap) : Type 0 where
  pub query : Text
  pub columns : List Text
  pub row : Row
  pub rows : List Row
  pub queried :
      get_statistic_changed_by_id_query f.database f.table f.identity f.index_names entry
      ≡ some query
  pub found : (k : ℕ) → w.find k query ≡ some (columns, row ∷ rows)
  pub mapped : row_map columns row ≡ some m
  pub indexed : (k : ℕ) → w.index_path k (after_query f entry).0.index_names m ≡ (path, false)
  pub named : is_empty path ≡ false
  pub succeeds : (k : ℕ) → w.seed k path m ≡ false

-- the same for every changed row in turn, with the path and the columns of each
abbrev pub AllStored : Calls → Settings → List Row → List (Text × RowMap) → Type 0
AllStored w f [] [] = Unit
AllStored w f [] (out ∷ outs) = ⊥
AllStored w f (entry ∷ entries) [] = ⊥
AllStored w f (entry ∷ entries) ((path, m) ∷ outs) =
    Stored w f entry path m × AllStored w (after_query f entry).0 entries outs

alert_of-seeds : (a : Option Cell) (b : Bool) (s : List Effect) → seeds (alert_of a b s) ≡ seeds s
unfolding seeds
alert_of-seeds (some (text a)) true s = seeds-append s (alerted a ∷ []) ∙ append-nil (seeds s)
alert_of-seeds _ _ s = refl

send_alert-seeds :
    (f : Settings) (m : RowMap) (s : List Effect) → seeds (send_alert f m s) ≡ seeds s
unfolding send_alert
send_alert-seeds f m s =
    if_cases (λ t. seeds t ≡ seeds s) (text_eq f.identity (codes "flowName"))
      (alert_of (cell_of f.identity m) f.has_alerts s) s
      (λ e. alert_of-seeds (cell_of f.identity m) f.has_alerts s) (λ e. refl)

-- the effects that a step leaves, with the seedings that it has added
abbrev Seeds : List Effect → List (Text × RowMap) → Option (List Effect) → Type 0
Seeds s outs o = (t : List Effect) × (o ≡ some t) × (seeds t ≡ seeds s ++ outs)

seed_row-Seeds :
    (w : Calls) (f : Settings) (path : Text) (m : RowMap) (s : List Effect)
    → f.read_only ≡ false
    → w.seed (length s) path m ≡ false
    → Seeds s ((path, m) ∷ []) (seed_row w f path m s)
unfolding seed_row seeds
seed_row-Seeds w f path m s h k = (
  add (seeded path m (w.seed (length s) path m)) s,
  ground (arith, h, k),
  seeds-append s (seeded path m (w.seed (length s) path m) ∷ []),
)

push_row-Seeds :
    (f : Settings) (m : RowMap) (s : List Effect) (outs : List (Text × RowMap))
    (o : Option (List Effect))
    → Seeds s outs o
    → Seeds s outs (push_row f m o)
unfolding seeds
push_row-Seeds f m s outs none (t, e, h) = cc
push_row-Seeds f m s outs (some u) (t, e, h) =
    let same : u ≡ t = cc in
    if_cases (Seeds s outs) (f.push_enabled && f.has_push) (some (add (pushed m) u)) (some u)
      (λ g. (
        add (pushed m) u,
        refl,
        seeds-append u (pushed m ∷ []) ∙ append-nil (seeds u) ∙ ap seeds same ∙ h,
      ))
      (λ g. (u, refl, ap seeds same ∙ h))

persist_indexed-Seeds :
    (w : Calls) (f : Settings) (entry : Row) (m : RowMap) (path : Text) (s : List Effect)
    → f.read_only ≡ false
    → is_empty path ≡ false
    → ((k : ℕ) → w.seed k path m ≡ false)
    → Seeds s ((path, m) ∷ []) (persist_indexed w f entry m (path, false) s)
persist_indexed-Seeds w f entry m path s h n k =
    let sent = send_alert f m s in
    let (t, e, q) = seed_row-Seeds w f path m sent h (k (length sent)) in
    let added : Seeds s ((path, m) ∷ []) (seed_row w f path m sent) =
      (t, e, q ∙ ap (λ u. u ++ (path, m) ∷ []) (send_alert-seeds f m s)) in
    rw n (push_row-Seeds f m s ((path, m) ∷ []) (seed_row w f path m sent) added)

asked-Seeds :
    (q : Text) (s : List Effect) (outs : List (Text × RowMap)) (o : Option (List Effect))
    → Seeds (add (asked q) s) outs o
    → Seeds s outs o
unfolding seeds
asked-Seeds q s outs o (t, e, h) =
    let same : seeds (add (asked q) s) ≡ seeds s =
      seeds-append s (asked q ∷ []) ∙ append-nil (seeds s) in
    (t, e, h ∙ ap (λ u. u ++ outs) same)

persist_entry-Seeds :
    (w : Calls) (f : Settings) (entry : Row) (path : Text) (m : RowMap) (s : List Effect)
    → f.read_only ≡ false
    → Stored w f entry path m
    → Seeds s ((path, m) ∷ []) (persist_entry w f entry s)
unfolding persist_entry persist_found
persist_entry-Seeds w f entry path m s h r =
    let (g, values) = after_query f entry in
    let t = add (asked r.query) s in
    let indexed = persist_indexed-Seeds w g values m path t h r.named r.succeeds in
    rw (r.queried, r.found (length s), r.mapped, r.indexed (length t))
      (asked-Seeds r.query s ((path, m) ∷ []) (persist_indexed w g values m (path, false) t)
        indexed)

-- If the flow is not read-only, and each changed row is found in the table, has a path and is seeded
-- without an error, then the loop over the changed rows does not panic and seeds each row once, in
-- their order, at its path and with its columns.
pub persist_entries-Seeds :
    (w : Calls) (f : Settings) (entries : List Row) (outs : List (Text × RowMap)) (s : List Effect)
    → f.read_only ≡ false
    → AllStored w f entries outs
    → (t : List Effect) × (persist_entries w f entries s ≡ some t) × (seeds t ≡ seeds s ++ outs)
unfolding persist_entries
persist_entries-Seeds w f [] [] s h r = (s, refl, sym (append-nil (seeds s)))
persist_entries-Seeds w f [] (out ∷ outs) s h r = absurd r
persist_entries-Seeds w f (entry ∷ entries) [] s h r = absurd r
persist_entries-Seeds w f (entry ∷ entries) ((path, m) ∷ outs) s h (r, rs) =
    let (t, e, q) = persist_entry-Seeds w f entry path m s h r in
    let (u, d, k) = persist_entries-Seeds w (after_query f entry).0 entries outs t h rs in
    (u, rw (e, d) refl, k ∙ ap (λ x. x ++ outs) q ∙ append_assoc (seeds s) ((path, m) ∷ []) outs)
