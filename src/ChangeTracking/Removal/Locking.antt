-- ===== src/ChangeTracking/Removal/Locking.antt =====
-- What a removal has done when it returns, and what it leaves locked.
use tierceron.Base.{
  ◌≡◌, refl, Bool, true, false, Option, none, some, List, [], ◌∷◌, ◌++◌, arith, length,
  if◌then◌else◌, append_assoc, append-nil, Bool-cases, inl, inr, ap, sym, ◌∙◌, ◌==◌,
}
use mathlib.Core.Path.{subst}
use tierceron.GoStrings.{Text}
use tierceron.ChangeTracking.{Row}
use tierceron.ChangeTracking.Removal.{
  Engine, Process, Removal, removed, failed, panicked, blocked, query, after_delete, delete_rows,
  deletes_of, with_rows, select_rows, remove_entries, remove_changed_table_entries,
  remove_composite_key_changed_table_entries, remove_statistic_changed_table_entries,
  remove_changes, delete_single, delete_composite, delete_statistic,
}
use tierceron.ChangeTracking.Queries.{
  get_change_id_query, get_composite_change_id_query, get_statistic_change_id_query,
}

-- What stands after a removal: with its rows the lock is free, and after an error or a panic it is
-- held, so that every later removal, of any table, waits for ever.
abbrev pub Leaves : Removal → Type 0
Leaves (removed rows p) = p.locked ≡ false
Leaves (failed p) =
    (engine : Engine) (database table id : Text) (names : List Text)
    → remove_changes engine database table id names p ≡ blocked
Leaves (panicked p) = p.locked ≡ true
Leaves blocked = ⊥

remove_entries-blocked :
    (engine : Engine) (select : Option Text) (delete : Row → Option Text) (p : Process)
    → p.locked ≡ true
    → remove_entries engine select delete p ≡ blocked
unfolding remove_entries
remove_entries-blocked engine select delete p h = rw h refl

choose :
    (P : Removal → Type 0) (b c : Bool) (r s t : Removal)
    → P r
    → P s
    → P t
    → P (if b then r else if c then s else t)
choose P true c r s t h k l = h
choose P false true r s t h k l = k
choose P false false r s t h k l = l

remove_changes-blocked :
    (engine : Engine) (database table id : Text) (names : List Text) (p : Process)
    → p.locked ≡ true
    → remove_changes engine database table id names p ≡ blocked
unfolding remove_changes remove_changed_table_entries remove_composite_key_changed_table_entries
    remove_statistic_changed_table_entries
remove_changes-blocked engine database table id names p h =
    choose (λ r. r ≡ blocked) (length names == 3) (length names == 2)
      (remove_statistic_changed_table_entries engine database table id names p)
      (remove_composite_key_changed_table_entries engine database table names p)
      (remove_changed_table_entries engine database table p)
      (remove_entries-blocked engine (get_statistic_change_id_query database table id names)
        (delete_statistic database table id names) p h)
      (remove_entries-blocked engine (get_composite_change_id_query database table names)
        (delete_composite database table names) p h)
      (remove_entries-blocked engine (some (get_change_id_query database table))
        (delete_single database table) p h)

Leaves-delete_rows :
    (engine : Engine) (rows : List Row) (deletes : List (Option Text)) (p : Process)
    → p.locked ≡ true
    → Leaves (delete_rows engine rows deletes p)
unfolding delete_rows
Leaves-delete_rows engine rows [] p h = refl
Leaves-delete_rows engine rows (none ∷ deletes) p h = h
Leaves-delete_rows engine rows (some q ∷ deletes) p h =
    let p' = (query engine q p).1 in
    elim (engine (length p.queries) q)
      as (λ answer. Leaves (after_delete answer p' (delete_rows engine rows deletes p'))) [
        | none ↦ λ e d t i n. remove_changes-blocked e d t i n p' h
        | some answer ↦ Leaves-delete_rows engine rows deletes p' h
      ]

Leaves-select_rows :
    (engine : Engine) (delete : Row → Option Text) (select : Option Text) (p : Process)
    → p.locked ≡ true
    → Leaves (select_rows engine delete select p)
Leaves-select_rows engine delete none p h = h
Leaves-select_rows engine delete (some q) p h =
    let p' = (query engine q p).1 in
    elim (engine (length p.queries) q) as (λ answer. Leaves (with_rows engine delete answer p')) [
      | none ↦ λ e d t i n. remove_changes-blocked e d t i n p' h
      | some rows ↦ Leaves-delete_rows engine rows (deletes_of delete rows) p' h
    ]

Leaves-remove_entries :
    (engine : Engine) (select : Option Text) (delete : Row → Option Text) (p : Process)
    → p.locked ≡ false
    → Leaves (remove_entries engine select delete p)
unfolding remove_entries
Leaves-remove_entries engine select delete p h =
    rw h (Leaves-select_rows engine delete select (record p { locked = true }) refl)

-- A removal that finds the lock free does not wait: it returns, or it panics with the lock held.
-- Where it returns the rows the lock is free again, and where the database has answered a query
-- with an error the lock stays held: every later removal, of any table, waits for ever.
pub remove_changes-Leaves :
    (engine : Engine) (database table id : Text) (names : List Text) (p : Process)
    → p.locked ≡ false
    → Leaves (remove_changes engine database table id names p)
unfolding remove_changes remove_changed_table_entries remove_composite_key_changed_table_entries
    remove_statistic_changed_table_entries
remove_changes-Leaves engine database table id names p h =
    choose Leaves (length names == 3) (length names == 2)
      (remove_statistic_changed_table_entries engine database table id names p)
      (remove_composite_key_changed_table_entries engine database table names p)
      (remove_changed_table_entries engine database table p)
      (Leaves-remove_entries engine (get_statistic_change_id_query database table id names)
        (delete_statistic database table id names) p h)
      (Leaves-remove_entries engine (get_composite_change_id_query database table names)
        (delete_composite database table names) p h)
      (Leaves-remove_entries engine (some (get_change_id_query database table))
        (delete_single database table) p h)

-- the texts of queries that are all there
abbrev pub all_some : List Text → List (Option Text)
all_some [] = []
all_some (q ∷ qs) = some q ∷ all_some qs

-- What a loop that ends with rows has done.
abbrev Ran : List Row → List (Option Text) → Process → Removal → Type 0
Ran rows deletes p (removed rows' p') =
    (rows ≡ rows') × ((qs : List Text) × (deletes ≡ all_some qs) × (p'.queries ≡ p.queries ++ qs))
Ran rows deletes p (failed p') = Unit
Ran rows deletes p (panicked p') = Unit
Ran rows deletes p blocked = Unit

Ran-cons :
    (rows : List Row) (q : Text) (deletes : List (Option Text)) (p p' : Process) (r : Removal)
    → p'.queries ≡ p.queries ++ q ∷ []
    → Ran rows deletes p' r
    → Ran rows (some q ∷ deletes) p r
Ran-cons rows q deletes p p' (removed rows' s) h (e, (qs, d, k)) = (
  e,
  (q ∷ qs, ap (λ ds. some q ∷ ds) d, ground (arith, k, h, append_assoc p.queries (q ∷ []) qs)),
)
Ran-cons rows q deletes p p' (failed s) h k = tt
Ran-cons rows q deletes p p' (panicked s) h k = tt
Ran-cons rows q deletes p p' blocked h k = tt

Ran-delete_rows :
    (engine : Engine) (rows : List Row) (deletes : List (Option Text)) (p : Process)
    → Ran rows deletes p (delete_rows engine rows deletes p)
unfolding delete_rows
Ran-delete_rows engine rows [] p = (refl, ([], refl, sym (append-nil p.queries)))
Ran-delete_rows engine rows (none ∷ deletes) p = tt
Ran-delete_rows engine rows (some q ∷ deletes) p =
    let p' = (query engine q p).1 in
    elim (engine (length p.queries) q)
      as (λ a.
        Ran rows (some q ∷ deletes) p (after_delete a p' (delete_rows engine rows deletes p'))) [
          | none ↦ tt
          | some a ↦
              Ran-cons rows q deletes p p' (delete_rows engine rows deletes p') refl
                (Ran-delete_rows engine rows deletes p')
        ]

with_rows-removed :
    (engine : Engine) (delete : Row → Option Text) (answer : Option (List Row)) (p p' : Process)
    (rows : List Row)
    → with_rows engine delete answer p ≡ removed rows p'
    → (answer ≡ some rows)
      × ((qs : List Text) × (deletes_of delete rows ≡ all_some qs) × (p'.queries ≡ p.queries ++ qs))
with_rows-removed engine delete none p p' rows h = cc
with_rows-removed engine delete (some found) p p' rows h =
    let deletes = deletes_of delete found in
    let (e, (qs, d, k)) =
      subst (λ r. Ran found deletes p r) h (Ran-delete_rows engine found deletes p) in
    (ap (λ r. some r) e, (qs, ap (deletes_of delete) (sym e) ∙ d, k))

-- Where `removeChangedTableEntries` returns rows, they are the rows that its first query has read,
-- and it has made that query and then one deletion for each row, in their order, and no other.
pub removed-deleted :
    (engine : Engine) (database table : Text) (p p' : Process) (rows : List Row)
    → remove_changed_table_entries engine database table p ≡ removed rows p'
    → let select = get_change_id_query database table in
      (engine (length p.queries) select ≡ some rows)
      × ((qs : List Text) × (deletes_of (delete_single database table) rows ≡ all_some qs)
          × (p'.queries ≡ p.queries ++ select ∷ qs))
unfolding remove_changed_table_entries remove_entries
removed-deleted engine database table p p' rows h = elim (Bool-cases p.locked) [
  | inl e ↦ absurd (ground (arith, h, e))
  | inr e ↦
      let select = get_change_id_query database table in
      let asked : Process = record { locked = true; queries = p.queries ++ select ∷ [] } in
      let ran : with_rows engine (delete_single database table) (engine (length p.queries) select)
            asked
          ≡ removed rows p' =
        ground (arith, h, e) in
      let (a, (qs, d, k)) =
        with_rows-removed engine (delete_single database table) (engine (length p.queries) select)
          asked p' rows ran in
      (a, (qs, d, ground (arith, k, append_assoc p.queries (select ∷ []) qs)))
]
