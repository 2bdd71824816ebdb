-- ===== src/PathFilter/PrefixMode.antt =====
-- `FilterPaths` in prefix mode, where a slot that no path fills keeps its first value 0.
use tierceron.Base.{
  ℕ, zero, suc, ◌≡◌, ◌≢◌, refl, true, false, some, List, [], ◌∷◌, length, replicate, arith, All, ap,
}
use tierceron.GoStrings.{Text, has_prefix}
use tierceron.GoStrings.Equality.{eq_of_text_eq}
use tierceron.PathFilter.{Slots, scan, scan_all, collect, filter_paths}

scan_none :
    (filter : Text) (i : ℕ) (paths : List Text) (s : Slots)
    → All (λ path. has_prefix path filter ≡ false) paths
    → scan filter true i paths s ≡ s
unfolding scan
scan_none filter i [] s h = refl
scan_none filter i (path ∷ paths) s h = ground (arith, scan_none filter (suc i) paths s)

-- no filter begins any of the paths
abbrev pub NoPrefix : List Text → List Text → Type 0
NoPrefix paths = All (λ filter. All (λ path. has_prefix path filter ≡ false) paths)

scan_all_none :
    (filters paths : List Text) (s : Slots)
    → NoPrefix paths filters
    → scan_all filters true paths s ≡ s
unfolding scan_all
scan_all_none [] paths s h = refl
scan_all_none (filter ∷ filters) paths s h =
    rw (scan_none filter 0 paths s h.0) (scan_all_none filters paths s h.1)

collect-replicate :
    (n : ℕ) (p : Text) (paths : List Text) (e : Text) (ends : List Text)
    → collect (p ∷ paths) (e ∷ ends) (replicate n (some 0)) ≡ some (replicate n p, replicate n e)
unfolding collect
collect-replicate zero p paths e ends = refl
collect-replicate (suc n) p paths e ends = ground (arith, collect-replicate n p paths e ends)

-- In prefix mode, if the first filter is not empty and no filter begins any template path, the
-- result is not empty: it is the first template path and the first end path, repeated once for
-- each template path.
filter_paths_prefix_none :
    (p : Text) (paths : List Text) (e : Text) (ends : List Text) (filter : Text)
    (filters : List Text)
    → filter ≢ []
    → NoPrefix (p ∷ paths) (filter ∷ filters)
    → filter_paths (p ∷ paths) (e ∷ ends) (filter ∷ filters) true
      ≡ some (replicate (length (p ∷ paths)) p, replicate (length (p ∷ paths)) e)
unfolding filter_paths
filter_paths_prefix_none p paths e ends filter filters h none_begins =
    let start : Slots = record { index = replicate (length (p ∷ paths)) (some 0); counter = 0 } in
    let unchanged = scan_all_none (filter ∷ filters) (p ∷ paths) start none_begins in
    ground (
      arith,
      eq_of_text_eq filter [],
      ap (λ (s : Slots). collect (p ∷ paths) (e ∷ ends) s.index) unchanged,
      collect-replicate (length (p ∷ paths)) p paths e ends,
    )
