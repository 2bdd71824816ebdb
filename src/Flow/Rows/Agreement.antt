-- ===== src/Flow/Rows/Agreement.antt =====
-- Queries with and without bindings, on the same cursor.
use tierceron.Base.{
  ◌≡◌, refl, ap, Bool, true, false, some, List, [], ◌∷◌, arith, All, Bool-cases, inl, inr,
}
use tierceron.GoStrings.{is_empty}
use tierceron.ChangeTracking.{Row}
use tierceron.Flow.Rows.{
  Item, ok_result, row, failure, Cursor, read_items, read_bound, all_textual, query,
  query_with_bindings, add_rows, set_ok, result_rows,
}

-- a step of the cursor that is no error, and whose values are texts
abbrev pub IsTextual : Item → Type 0
IsTextual (ok_result affected inserted) = Unit
IsTextual (row r) = all_textual r ≡ true
IsTextual failure = ⊥

read_bound-items : (items : List Item) → All IsTextual items → read_bound items ≡ read_items items
unfolding read_bound read_items
read_bound-items [] h = refl
read_bound-items (ok_result affected inserted ∷ items) (h, hs) =
    ap (λ o. set_ok (add_rows (result_rows affected inserted) o)) (read_bound-items items hs)
read_bound-items (row r ∷ items) (h, hs) = let rest = read_bound-items items hs in rw (h, rest) refl
read_bound-items (failure ∷ items) (h, hs) = absurd h

read_items-some :
    (items : List Item)
    → All IsTextual items
    → (rows : Bool × List Row) × (read_items items ≡ some rows)
unfolding read_items
read_items-some [] h = ((false, []), refl)
read_items-some (ok_result affected inserted ∷ items) (h, hs) =
    let ((ok, matrix), e) = read_items-some items hs in rw e (_, refl)
read_items-some (row r ∷ items) (h, hs) =
    let ((ok, matrix), e) = read_items-some items hs in rw e (_, refl)
read_items-some (failure ∷ items) (h, hs) = absurd h

-- On a cursor that does not fail and whose values are texts, a query with bindings does not panic
-- and returns what a query without bindings returns.
pub query_with_bindings-query :
    (c : Cursor) → All IsTextual c.items → query_with_bindings (some c) ≡ some (query (some c))
unfolding query_with_bindings query
query_with_bindings-query c h =
    let same = read_bound-items c.items h in
    let (rows, e) = read_items-some c.items h in
    elim (Bool-cases (is_empty c.columns)) [
      | inl n ↦ ground (arith, n)
      | inr n ↦ ground (arith, n, same, e)
    ]
