-- ===== src/Statistics/Fleet.antt =====
-- Which statistics the argosies of a fleet hold.
use tierceron.Base.{
  ◌≡◌, refl, ap, ◌∙◌, false, Option, List, [], ◌∷◌, ◌++◌, append-nil, Bool-cases, inl, inr,
  if◌then◌else◌,
}
use tierceron.GoMaps.{Map, fetch, store, fetch-store, fetch-store_other}
use tierceron.GoStrings.{Text, text_eq, is_empty}
use tierceron.GoStrings.Equality.{text_eq_iff}
use tierceron.Statistics.{
  Nodes, no_nodes, Row, Statistic, map_statistic, or_initial, statistic_node, add_below, place_of,
  nodes_or_none, add_row, add_rows, empty_fleet, argosy_fleet,
}
use tierceron.Statistics.Entries.{Entry, entries, entries-add_below}
use mathlib.Core.List.{Perm, perm_middle}
use mathlib.Core.List.Perm
use mathlib.Core.Path.{subst}

-- the statistics of an argosy, each with the names above it
abbrev pub statistics_of : Text → Map Nodes → List Entry
statistics_of id fleet = entries [] (nodes_or_none (fetch id fleet))

module _ (encode : Statistic → Option Text) (initial : Text) where
  -- what is encoded of a row, and its place
  abbrev pub entry_of : Row → Entry
  entry_of r = (place_of r, or_initial initial (encode (map_statistic r)))

  -- the entries of the rows of an argosy
  abbrev pub entries_of : Text → List Row → List Entry
  entries_of id [] = []
  entries_of id (r ∷ rest) =
      let later = entries_of id rest in if text_eq r.argos_id id then entry_of r ∷ later else later

  add_row-same :
      (r : Row) (fleet : Map Nodes)
      → is_empty (or_initial initial (encode (map_statistic r))) ≡ false
      → Perm
          (statistics_of r.argos_id (add_row encode initial r fleet))
          (entry_of r ∷ statistics_of r.argos_id fleet)
  unfolding add_row statistic_node
  add_row-same r fleet h =
      let content = or_initial initial (encode (map_statistic r)) in
      let below : Nodes = nodes_or_none (fetch r.argos_id fleet) in
      rw
        (fetch-store r.argos_id (add_below (place_of r) (statistic_node encode initial r) below)
          fleet)
        (entries-add_below [] (place_of r) r.flow_name content below h)

  add_row-other :
      (id : Text) (r : Row) (fleet : Map Nodes)
      → text_eq r.argos_id id ≡ false
      → statistics_of id (add_row encode initial r fleet) ≡ statistics_of id fleet
  unfolding add_row
  add_row-other id r fleet h =
      ap (λ o. entries [] (nodes_or_none o))
        (fetch-store_other r.argos_id id
          (add_below (place_of r) (statistic_node encode initial r)
            (nodes_or_none (fetch r.argos_id fleet)))
          fleet h)

  add_rows-Perm :
      (id : Text) (rows : List Row) (fleet : Map Nodes)
      → ((s : Statistic) → is_empty (or_initial initial (encode s)) ≡ false)
      → Perm
          (statistics_of id (add_rows encode initial rows fleet))
          (entries_of id rows ++ statistics_of id fleet)
  unfolding add_rows
  add_rows-Perm id [] fleet h = Perm.refl (statistics_of id fleet)
  add_rows-Perm id (r ∷ rest) fleet h =
      let next = add_row encode initial r fleet in
      let later = entries_of id rest in
      elim (Bool-cases (text_eq r.argos_id id)) [
        | inr e ↦ rw e (
            subst (λ x. Perm (statistics_of id (add_rows encode initial rest next)) (later ++ x))
              (add_row-other id r fleet e) (add_rows-Perm id rest next h))
        | inl e ↦
            let same : r.argos_id ≡ id = (text_eq_iff r.argos_id id).0 e in
            let added : Perm (statistics_of id next) (entry_of r ∷ statistics_of id fleet) =
              subst (λ x. Perm (statistics_of x next) (entry_of r ∷ statistics_of x fleet)) same
                (add_row-same r fleet (h (map_statistic r))) in
            rw e (
              Perm.trans (add_rows-Perm id rest next h) (
                Perm.trans (Perm.append_left later added)
                  (perm_middle later (statistics_of id fleet))))
      ]

  statistics_of-empty_fleet :
      (id : Text) (ids : List Text) → statistics_of id (empty_fleet ids) ≡ []
  unfolding empty_fleet entries fetch
  statistics_of-empty_fleet id [] = refl
  statistics_of-empty_fleet id (i ∷ ids) = elim (Bool-cases (text_eq i id)) [
    | inr e ↦
        ap (λ o. entries [] (nodes_or_none o)) (fetch-store_other i id no_nodes (empty_fleet ids) e)
        ∙ statistics_of-empty_fleet id ids
    | inl e ↦
        subst (λ x. entries [] (nodes_or_none (fetch x (store i no_nodes (empty_fleet ids)))) ≡ [])
          ((text_eq_iff i id).0 e)
          (ap (λ o. entries [] (nodes_or_none o)) (fetch-store i no_nodes (empty_fleet ids)))
  ]

-- In the fleet that is read from the table, an argosy has the statistics of its rows and no others,
-- each once, below its group and the name of its flow, with the part of a name that a dash ends
-- between them, in some order: if no data that is encoded is empty.
pub argosy_fleet-Perm :
    (encode : Statistic → Option Text) (initial : Text) (id : Text) (ids : List Text)
    (rows : List Row)
    → ((s : Statistic) → is_empty (or_initial initial (encode s)) ≡ false)
    → Perm
        (statistics_of id (argosy_fleet encode initial ids rows))
        (entries_of encode initial id rows)
unfolding argosy_fleet
argosy_fleet-Perm encode initial id ids rows h =
    subst (λ x. Perm (statistics_of id (argosy_fleet encode initial ids rows)) x)
      (ap (λ x. entries_of encode initial id rows ++ x)
          (statistics_of-empty_fleet encode initial id ids)
        ∙ append-nil (entries_of encode initial id rows))
      (add_rows-Perm encode initial id rows (empty_fleet ids) h)
