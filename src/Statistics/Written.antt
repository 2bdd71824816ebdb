-- ===== src/Statistics/Written.antt =====
-- What FinishStatistic writes of the statistics of a flow, and of one that has just been added.
use tierceron.Base.{
  ◌≡◌, refl, ap, ◌∙◌, Bool, true, false, not, ◌&&◌, Option, none, some, List, [], ◌∷◌, ◌++◌,
  if◌then◌else◌,
}
use tierceron.GoMaps.{Map, fetch}
use tierceron.GoStrings.{Text, codes}
use tierceron.Statistics.{node, Nodes, no_nodes, more, append_node}
use tierceron.Statistics.Finish.{
  StatMap, Effect, inserted, wrote, Finished, returned, before, Target, data_row, statistic_path,
  write_row, finish_row, finish_rows, finish_data, finish_statistic,
}
use tierceron.Statistics.Updates.{Json, boolean, object}

-- The statistics of a flow can be decoded, with these rows and paths.
abbrev pub Rows : Target → Nodes → List (StatMap × Text) → Type 0
Rows t no_nodes [] = Unit
Rows t no_nodes (r ∷ rs) = ⊥
Rows t (more n rest) [] = ⊥
Rows t (more (node name content below) rest) ((row, path) ∷ rs) =
    (m : Map Json) × (t.decode content ≡ object m)
    × (data_row t.elapsed m ≡ row)
    × (statistic_path t.prefix row ≡ some path)
    × Rows t rest rs

-- what is done with one row: it is written, or inserted and written if that changes nothing
abbrev pub row_effects : Target → StatMap → Text → List Effect
row_effects t row path =
    if t.write_back
    then wrote path row ∷ []
    else if not t.has_contexts
    then []
    else if t.insert_changes row
    then inserted row ∷ []
    else inserted row ∷ wrote path row ∷ []

abbrev pub effects_for : Target → List (StatMap × Text) → List Effect
effects_for t [] = []
effects_for t ((row, path) ∷ rs) = row_effects t row path ++ effects_for t rs

and_false : (b : Bool) → (b && false) ≡ false
and_false true = refl
and_false false = refl

write_row-returned :
    (t : Target) (row : StatMap) (path : Text) (o : Option Text) (es : List Effect)
    → o ≡ some path
    → write_row t false row o (returned es) ≡ returned (wrote path row ∷ es)
write_row-returned t row path none es h = cc
write_row-returned t row path (some p) es h =
    let same : p ≡ path = ap (λ o. elim o [ none ↦ p | some q ↦ q ]) h in
    rw (and_false (t.write_fails p)) (ap (λ q. returned (wrote q row ∷ es)) same)

by_target :
    (row : StatMap) (path : Text) (es : List Effect) (written : Finished)
    (write_back contexts changes : Bool)
    → written ≡ returned (wrote path row ∷ es)
    → (if write_back
        then written
        else if not contexts
        then returned es
        else before (inserted row ∷ []) (if changes then returned es else written))
      ≡ returned (
          (if write_back
            then wrote path row ∷ []
            else if not contexts
            then []
            else if changes
            then inserted row ∷ []
            else inserted row ∷ wrote path row ∷ [])
          ++ es)
by_target row path es written true c d h = h
by_target row path es written false false d h = refl
by_target row path es written false true true h = refl
by_target row path es written false true false h = ap (before (inserted row ∷ [])) h

finish_row-returned :
    (t : Target) (row : StatMap) (path : Text) (es : List Effect)
    → statistic_path t.prefix row ≡ some path
    → finish_row t false row (returned es) ≡ returned (row_effects t row path ++ es)
unfolding finish_row
finish_row-returned t row path es h =
    by_target row path es (write_row t false row (statistic_path t.prefix row) (returned es))
      t.write_back t.has_contexts (t.insert_changes row)
      (write_row-returned t row path (statistic_path t.prefix row) es h)

finish_rows-returned :
    (t : Target) (below : Nodes) (rs : List (StatMap × Text))
    → Rows t below rs
    → finish_rows t false below ≡ returned (effects_for t rs)
unfolding finish_rows
finish_rows-returned t no_nodes [] h = refl
finish_rows-returned t no_nodes (r ∷ rs) h = absurd h
finish_rows-returned t (more n rest) [] h = absurd h
finish_rows-returned t (more (node name content below) rest) ((row, path) ∷ rs) (m, e, f, g, h) =
    let first : StatMap = data_row t.elapsed m in
    rw e (
      ap (finish_row t false first) (finish_rows-returned t rest rs h)
      ∙ (ap (λ r. finish_row t false r (returned (effects_for t rs))) f
          ∙ finish_row-returned t row path (effects_for t rs) g))

-- a statistic behind the others
pub Rows-append_node :
    (t : Target) (below : Nodes) (rs : List (StatMap × Text)) (child : Text) (m : Map Json)
    (row : StatMap) (path : Text)
    → Rows t below rs
    → t.decode child ≡ object m
    → data_row t.elapsed m ≡ row
    → statistic_path t.prefix row ≡ some path
    → Rows t (append_node (node [] child no_nodes) below) (rs ++ (row, path) ∷ [])
unfolding append_node
Rows-append_node t no_nodes [] child m row path h e f g = (m, e, f, g, tt)
Rows-append_node t no_nodes (r ∷ rs) child m row path h e f g = absurd h
Rows-append_node t (more n rest) [] child m row path h e f g = absurd h
Rows-append_node t (more (node name content below) rest) ((r, q) ∷ rs) child m row path
      (m0, e0, f0, g0, h) e f g =
    (m0, e0, f0, g0, Rows-append_node t rest rs child m row path h e f g)

-- The data of a flow without a function to log with, as it is when it has been decoded.
pub record Quiet (t : Target) (content : Text) : Type 0 where
  pub flow_map : Map Json
  pub decoded : t.decode content ≡ object flow_map
  pub no_function : fetch (codes "LogFunc") flow_map ≡ none
  pub stat : Option Bool
  pub has_stat :
      fetch (codes "LogStat") flow_map ≡ (elim stat [ none ↦ none | some b ↦ some (boolean b) ])

finish_data-quiet :
    (t : Target) (stat : Option Bool) (o : Option Json) (below : Nodes)
    → o ≡ (elim stat [ none ↦ none | some b ↦ some (boolean b) ])
    → finish_data t o false below ≡ finish_rows t false below
finish_data-quiet t none o below h = rw h refl
finish_data-quiet t (some true) o below h = rw h refl
finish_data-quiet t (some false) o below h = rw h refl

-- FinishStatistic of a flow whose data and statistics can be decoded returns: it writes every
-- statistic at its path where it writes back, in their order, and otherwise inserts every one, and
-- writes it too where that changes nothing, if there are contexts at all. Errors of the writes change
-- nothing, if the data of the flow has no function to log with.
pub finish_statistic_all :
    (t : Target) (name content : Text) (below : Nodes) (rs : List (StatMap × Text))
    → Quiet t content
    → Rows t below rs
    → finish_statistic t (node name content below) ≡ returned (effects_for t rs)
unfolding finish_statistic
finish_statistic_all t name content below rs q h =
    rw (q.decoded, q.no_function)
      (finish_data-quiet t q.stat (fetch (codes "LogStat") q.flow_map) below q.has_stat
        ∙ finish_rows-returned t below rs h)
