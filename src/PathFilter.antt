-- ===== src/PathFilter.antt =====
-- pkg/cli/trcconfigbase/utils/filter.go: the choice of template paths by name filters.
pub mod Loops
pub mod Results
pub mod PrefixMode
mod Examples
use tierceron.Base.{
  ℕ, zero, suc, ◌+◌, Bool, true, false, not, ◌||◌, Option, none, some, List, [], ◌∷◌, length,
  get_elem?, set, replicate, ltb, if◌then◌else◌,
}
use tierceron.GoStrings.{Text, text_eq, has_prefix, contains}

-- `fileFilterIndex` and `fileFilterCounter`. A slot is `none` where the source writes -1.
pub record Slots : Type 0 where
  pub index : List (Option ℕ)
  pub counter : ℕ

-- `fileFilterIndex[fileFilterCounter] = i; fileFilterCounter++`
unfoldable pub put : Slots → Option ℕ → Slots
put s i = record { index = set s.index s.counter i; counter = s.counter + 1 }

-- The loop over the template paths for one filter; `i` is the position of the next path.
unfoldable pub scan : Text → Bool → ℕ → List Text → Slots → Slots
unfolding put has_prefix contains
scan filter prefix i [] s = s
scan filter false i (path ∷ paths) s =
    let ii = if contains path filter then some i else none in
    let rest = scan filter false (suc i) paths (put s ii) in
    if ltb s.counter (length s.index) then rest else s
scan filter true i (path ∷ paths) s =
    let kept = scan filter true (suc i) paths (put s (some i)) in
    let stored = if ltb s.counter (length s.index) then kept else s in
    let skipped = scan filter true (suc i) paths s in
    if has_prefix path filter then stored else skipped

-- The loop over the filters.
unfoldable pub scan_all : List Text → Bool → List Text → Slots → Slots
unfolding scan
scan_all [] prefix paths s = s
scan_all (filter ∷ filters) prefix paths s =
    scan_all filters prefix paths (scan filter prefix 0 paths s)

abbrev pub cons_both : Text → Text → Option (List Text × List Text) → Option (List Text × List Text)
cons_both p e none = none
cons_both p e (some (ps, es)) = some (p ∷ ps, e ∷ es)

abbrev pub with_both :
    Option Text → Option Text → Option (List Text × List Text) → Option (List Text × List Text)
with_both none e rest = none
with_both (some p) none rest = none
with_both (some p) (some e) rest = cons_both p e rest

-- The loop over the slots; `none` is the panic of an index out of range.
unfoldable pub collect : List Text → List Text → List (Option ℕ) → Option (List Text × List Text)
collect paths ends [] = some ([], [])
collect paths ends (none ∷ slots) = collect paths ends slots
collect paths ends (some i ∷ slots) =
    with_both (get_elem? paths i) (get_elem? ends i) (collect paths ends slots)

-- `FilterPaths`
unfoldable pub filter_paths :
    List Text → List Text → List Text → Bool → Option (List Text × List Text)
unfolding scan_all collect text_eq
filter_paths paths ends [] prefix = some (paths, ends)
filter_paths paths ends (filter ∷ filters) prefix =
    let start : Slots = record { index = replicate (length paths) (some 0); counter = 0 } in
    let slots = scan_all (filter ∷ filters) prefix paths start in
    if text_eq filter [] then some (paths, ends) else collect paths ends slots.index
