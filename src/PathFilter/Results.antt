-- ===== src/PathFilter/Results.antt =====
-- What `FilterPaths` returns.
use tierceron.Base.{
  ◌≡◌, ◌≢◌, refl, false, some, List, [], ◌∷◌, ◌++◌, length, get_elem?-append, append_assoc, arith,
  if◌then◌else◌, length-append,
}
use tierceron.GoStrings.{Text, contains}
use tierceron.GoStrings.Equality.{eq_of_text_eq}
use tierceron.PathFilter.{collect, filter_paths}
use tierceron.PathFilter.Loops.{marks, scan_all_first}

-- the elements of `xs` that stand where `paths` has one that contains the filter
abbrev pub matching : Text → List Text → List Text → List Text
matching filter [] xs = []
matching filter (path ∷ paths) [] = []
matching filter (path ∷ paths) (x ∷ xs) =
    if contains path filter then x ∷ matching filter paths xs else matching filter paths xs

collect-marks :
    (filter : Text) (before before_ends paths ends : List Text)
    → length before ≡ length before_ends
    → length paths ≡ length ends
    → collect (before ++ paths) (before_ends ++ ends) (marks filter (length before) paths)
      ≡ some (matching filter paths paths, matching filter paths ends)
unfolding collect
collect-marks filter before before_ends [] ends h k = refl
collect-marks filter before before_ends (path ∷ paths) [] h k = absurd (omega arith)
collect-marks filter before before_ends (path ∷ paths) (e ∷ ends) h k = ground (
  arith,
  get_elem?-append before path paths,
  get_elem?-append before_ends e ends,
  collect-marks filter (before ++ path ∷ []) (before_ends ++ e ∷ []) paths ends,
  append_assoc before (path ∷ []) paths,
  append_assoc before_ends (e ∷ []) ends,
  length-append before (path ∷ []),
  length-append before_ends (e ∷ []),
)

-- Without the prefix mode, `FilterPaths` returns exactly the template paths that contain the first
-- filter, in their order and each with the end path of its own position, if the first filter is
-- not empty and there are as many end paths as template paths: no index is out of range, and the
-- further filters change nothing.
pub filter_paths-matching :
    (paths ends : List Text) (filter : Text) (filters : List Text)
    → filter ≢ []
    → length paths ≡ length ends
    → filter_paths paths ends (filter ∷ filters) false
      ≡ some (matching filter paths paths, matching filter paths ends)
unfolding filter_paths
filter_paths-matching paths ends filter filters h k = ground (
  arith,
  eq_of_text_eq filter [],
  scan_all_first filter filters paths,
  collect-marks filter [] [] paths ends,
)
