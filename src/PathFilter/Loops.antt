-- ===== src/PathFilter/Loops.antt =====
-- What the loops of `FilterPaths` leave in the slots.
use tierceron.Base.{
  ℕ, suc, ◌≡◌, refl, ap, false, Option, none, some, List, [], ◌∷◌, ◌++◌, length, replicate,
  set-append, length-append, append_assoc, append-nil, arith, if◌then◌else◌, ◌<◌, ◌≤◌,
}
use tierceron.GoStrings.{Text, contains}
use tierceron.PathFilter.{Slots, put, scan, scan_all}

-- the slots that the first filter writes when it is looked for anywhere in a path
abbrev pub marks : Text → ℕ → List Text → List (Option ℕ)
marks filter i [] = []
marks filter i (path ∷ paths) =
    (if contains path filter then some i else none) ∷ marks filter (suc i) paths

abbrev filled : List (Option ℕ) → ℕ → Slots
filled done c = record { index = done; counter = c }

put_next :
    (done rest : List (Option ℕ)) (old v : Option ℕ)
    → put (filled (done ++ old ∷ rest) (length done)) v
      ≡ filled ((done ++ v ∷ []) ++ rest) (length (done ++ v ∷ []))
unfolding put
put_next done rest old v = ground (
  arith,
  set-append done old v rest,
  append_assoc done (v ∷ []) rest,
  length-append done (v ∷ []),
)

room : (done rest : List (Option ℕ)) (old : Option ℕ) → length done < length (done ++ old ∷ rest)
room done rest old = omega (arith, length-append done (old ∷ rest))

scan-marks :
    (filter : Text) (i : ℕ) (paths : List Text) (done : List (Option ℕ))
    → scan filter false i paths (filled (done ++ replicate (length paths) (some 0)) (length done))
      ≡ filled (done ++ marks filter i paths) (length (done ++ marks filter i paths))
unfolding scan
scan-marks filter i [] done = rw append-nil
scan-marks filter i (path ∷ paths) done =
    let v : Option ℕ = if contains path filter then some i else none in
    let rest : List (Option ℕ) = replicate (length paths) (some 0) in
    ground (
      arith,
      put_next done rest (some 0) v,
      room done rest (some 0),
      scan-marks filter (suc i) paths (done ++ v ∷ []),
      append_assoc done (v ∷ []) (marks filter (suc i) paths),
    )

pub scan_full :
    (filter : Text) (i : ℕ) (paths : List Text) (s : Slots)
    → length s.index ≤ s.counter
    → scan filter false i paths s ≡ s
unfolding scan
scan_full filter i [] s h = refl
scan_full filter i (path ∷ paths) s h = ground arith

scan_all_full :
    (filters : List Text) (paths : List Text) (s : Slots)
    → length s.index ≤ s.counter
    → scan_all filters false paths s ≡ s
unfolding scan_all
scan_all_full [] paths s h = refl
scan_all_full (filter ∷ filters) paths s h =
    rw (scan_full filter 0 paths s h) (scan_all_full filters paths s h)

-- only the first filter reaches the slots
pub scan_all_first :
    (filter : Text) (filters : List Text) (paths : List Text)
    → (scan_all (filter ∷ filters) false paths (filled (replicate (length paths) (some 0)) 0)).index
      ≡ marks filter 0 paths
unfolding scan_all
scan_all_first filter filters paths =
    rw (scan-marks filter 0 paths [], scan_all)
      (ap (λ (s : Slots). s.index)
        (scan_all_full filters paths (filled (marks filter 0 paths) (length (marks filter 0 paths)))
          (omega arith)))
