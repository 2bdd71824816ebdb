-- ===== src/ChangeTracking.antt =====
-- atrium/trcflow/core/context_helper.go and context.go: the tables of changed rows of a flow.
pub mod Queries
pub mod Removal
pub mod Triggers
mod Examples
use tierceron.Base.{ℤ, List, [], ◌∷◌, ◌++◌}
use tierceron.GoStrings.{Text, codes}
use tierceron.GoNumbers.{itoa}

-- A value of a row. `other` is of another type, with what `%s` and `%d` print of it.
pub data Cell : Type 0 where
  text : Text → Cell
  int64 : ℤ → Cell
  int : ℤ → Cell
  other : Text → Text → Cell

abbrev pub Row : Type 0
Row = List Cell

-- `fmt.Sprintf` of pieces of text
unfoldable pub concat : List Text → Text
concat [] = []
concat (t ∷ ts) = t ++ concat ts

-- what `%s` prints
abbrev pub show_text : Cell → Text
show_text (text s) = s
show_text (int64 i) = codes "%!s(int64=" ++ (itoa i ++ codes ")")
show_text (int i) = codes "%!s(int=" ++ (itoa i ++ codes ")")
show_text (other s d) = s
