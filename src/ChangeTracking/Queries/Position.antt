-- ===== src/ChangeTracking/Queries/Position.antt =====
-- The place of the identity column among the index columns.
use tierceron.Base.{◌≡◌, refl, false, List, [], ◌∷◌, ◌++◌, arith}
use tierceron.GoStrings.{Text}
use tierceron.GoStrings.Equality.{mem_text, text_eq_refl, text_eq_sym}
use tierceron.ChangeTracking.{text, Row}
use tierceron.ChangeTracking.Queries.{remove_element_from_slice, get_statistic_changed_by_id_query}

-- the first occurrence is taken out
remove_element_from_slice-append :
    (before after : List Text) (s : Text)
    → mem_text s before ≡ false
    → remove_element_from_slice (before ++ s ∷ after) s ≡ (before ++ after, s)
unfolding remove_element_from_slice mem_text
remove_element_from_slice-append [] after s h = ground (arith, text_eq_refl s)
remove_element_from_slice-append (v ∷ before) after s h =
    ground (arith, text_eq_sym s v, remove_element_from_slice-append before after s)

-- Where the values begin with the identity, a text, the query is the same wherever the identity
-- column stands among the names for the first time.
pub query-position :
    (database table column v : Text) (before after : List Text) (values : Row)
    → mem_text column before ≡ false
    → get_statistic_changed_by_id_query database table column
        (before ++ column ∷ after)
        (text v ∷ values)
      ≡ get_statistic_changed_by_id_query database table column
          (column ∷ (before ++ after))
          (text v ∷ values)
unfolding get_statistic_changed_by_id_query mem_text
query-position database table column v before after values h = ground (
  arith,
  remove_element_from_slice-append before after column h,
  remove_element_from_slice-append [] (before ++ after) column refl,
)
