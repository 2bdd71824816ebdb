-- ===== src/ConfigStore/Selection.antt =====
-- Which paths `Init` of pkg/cli/trcconfigbase/utils/dataStorePopulator.go reads: those that are no
-- folders, of the services that are wanted, and where their values are kept in the store.
use tierceron.Base.{
  ◌/◌, Bool, true, false, not, ◌&&◌, ◌||◌, ltb, leb, ◌==◌, Option, none, some, List, [], ◌∷◌, ◌++◌,
  length, get_elem?, if◌then◌else◌, drop,
}
use tierceron.GoStrings.{Text, codes, text_eq, has_suffix, split}

-- The loop that leaves the folders out.
unfoldable pub end_paths : List Text → List Text
end_paths [] = []
end_paths (path ∷ rest) =
    let later = end_paths rest in if has_suffix path (codes "/") then later else path ∷ later

-- the paths that are read: all of them, where fewer than a third are left
unfoldable pub data_paths : List Text → List Text
unfolding end_paths
data_paths full =
    let ends = end_paths full in
    if ltb (length ends) (length full / 3) && not (length ends == length full) then full else ends

abbrev pub is_text : Option Text → Text → Bool
is_text none t = false
is_text (some s) t = text_eq s t

abbrev pub first_part : List Text → Text
first_part [] = []
first_part (p ∷ ps) = p

-- The test of one service that is wanted against the parts of a path; `none` is the panic of
-- `pathParts[2]` for a path of two parts.
unfoldable pub is_wanted : List Text → Text → Option Bool
is_wanted parts service =
    let service_part = get_elem? parts 2 in
    let file_part = get_elem? parts 3 in
    let named : Bool =
      is_text service_part service
      || is_text service_part (first_part (split service (codes ".")))
      || leb 4 (length parts) && is_text file_part service in
    if leb 2 (length parts) then (if length parts == 2 then none else some named) else some false

-- The loop over the services, which ends at the first that fits.
unfoldable pub found_wanted : List Text → List Text → Option Bool
unfolding is_wanted
found_wanted parts [] = some false
found_wanted parts (service ∷ rest) = elim (is_wanted parts service) [
  | none ↦ none
  | some true ↦ some true
  | some false ↦ found_wanted parts rest
]

-- the parts behind the first, each with a slash in front
unfoldable pub slashed : List Text → Text
slashed [] = []
slashed (p ∷ ps) = codes "/" ++ (p ++ slashed ps)

unfoldable pub last_of : List Text → Text
last_of [] = []
last_of (p ∷ []) = p
last_of (p ∷ q ∷ ps) = last_of (q ∷ ps)

-- `fileDir`
unfoldable pub file_dir : List Text → Text
unfolding slashed last_of
file_dir parts = if ltb 4 (length parts) then slashed (drop 3 parts) else last_of parts
