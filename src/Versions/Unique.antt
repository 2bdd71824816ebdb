-- ===== src/Versions/Unique.antt =====
-- `RemoveDuplicates`, and `RemoveDuplicateValues` of pkg/utils/diffUtil.go with the same loop.
use tierceron.Base.{
  ◌≡◌, refl, false, not, ◌&&◌, List, [], ◌∷◌, arith, Bool-cases, inl, inr, if◌then◌else◌,
}
use tierceron.GoStrings.{Text, text_eq}
use tierceron.GoStrings.Equality.{mem_text, text_eq_iff}

-- `seen` holds the keys of the map, and the result is what the loop still appends.
unfoldable pub unique_from : List Text → List Text → List Text
unfolding mem_text text_eq
unique_from seen [] = []
unique_from seen (entry ∷ entries) =
    let new = entry ∷ unique_from (entry ∷ seen) entries in
    let old = unique_from seen entries in if mem_text entry seen then old else new

-- `RemoveDuplicates`
unfoldable pub remove_duplicates : List Text → List Text
unfolding unique_from
remove_duplicates entries = unique_from [] entries

-- `RemoveDuplicateValues`
unfoldable pub remove_duplicate_values : List Text → List Text
unfolding unique_from
remove_duplicate_values entries = unique_from [] entries

-- no text stands twice in the list
abbrev pub Distinct : List Text → Type 0
Distinct [] = Unit
Distinct (x ∷ xs) = (mem_text x xs ≡ false) × Distinct xs

-- the first list is the second with some texts left out
pub data Kept : List Text → List Text → Type 0 where
  nil : Kept [] []
  keep : (x : Text) {xs ys : List Text} → Kept xs ys → Kept (x ∷ xs) (x ∷ ys)
  drop : (y : Text) {xs ys : List Text} → Kept xs ys → Kept xs (y ∷ ys)

mem-unique_from :
    (x : Text) (seen entries : List Text)
    → mem_text x (unique_from seen entries) ≡ (mem_text x entries && not (mem_text x seen))
unfolding unique_from mem_text
mem-unique_from x seen [] = refl
mem-unique_from x seen (e ∷ es) =
    ground (arith, mem-unique_from x seen es, mem-unique_from x (e ∷ seen) es, text_eq_iff x e)

unique_from-Distinct : (seen entries : List Text) → Distinct (unique_from seen entries)
unfolding unique_from
unique_from-Distinct seen [] = tt
unique_from-Distinct seen (e ∷ es) = ground (
  arith,
  unique_from-Distinct seen es,
  unique_from-Distinct (e ∷ seen) es,
  mem-unique_from e (e ∷ seen) es,
  text_eq_iff e e,
)

unique_from-Kept : (seen entries : List Text) → Kept (unique_from seen entries) entries
unfolding unique_from
unique_from-Kept seen [] = nil
unique_from-Kept seen (e ∷ es) = elim (Bool-cases (mem_text e seen)) [
  | inl old ↦ rw old (drop e (unique_from-Kept seen es))
  | inr new ↦ rw new (keep e (unique_from-Kept (e ∷ seen) es))
]

-- `RemoveDuplicates` keeps exactly the texts of its argument, each once and in their order.
remove_duplicates_lem :
    (entries : List Text)
    → Distinct (remove_duplicates entries)
      × Kept (remove_duplicates entries) entries
      × ((x : Text) → mem_text x (remove_duplicates entries) ≡ mem_text x entries)
unfolding remove_duplicates
remove_duplicates_lem entries = (
  unique_from-Distinct [] entries,
  unique_from-Kept [] entries,
  λ x. ground (arith, mem-unique_from x [] entries),
)
