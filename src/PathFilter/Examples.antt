-- ===== src/PathFilter/Examples.antt =====
-- Runs of `FilterPaths`, and its theorems at concrete inputs.
use tierceron.Base.{◌≡◌, refl, false, some, List, [], ◌∷◌}
use tierceron.GoStrings.{Text, codes}
use tierceron.PathFilter.{filter_paths}
use tierceron.PathFilter.Results.{matching, filter_paths-matching}

abbrev templates : List Text
templates = codes "t/a.yml" ∷ codes "t/b.yml" ∷ codes "t/ab.yml" ∷ []

abbrev ends : List Text
ends = codes "a" ∷ codes "b" ∷ codes "ab" ∷ []

-- the second filter is never applied
second_filter_ignored :
    filter_paths templates ends (codes "a.yml" ∷ codes "b.yml" ∷ []) false
    ≡ some (codes "t/a.yml" ∷ [], codes "a" ∷ [])
unfolding filter_paths
second_filter_ignored = refl

filter_paths-matching_example :
    filter_paths templates ends (codes "a" ∷ codes "b" ∷ []) false
    ≡ some (matching (codes "a") templates templates, matching (codes "a") templates ends)
filter_paths-matching_example =
    filter_paths-matching templates ends (codes "a") (codes "b" ∷ []) (λ e. cc) refl
