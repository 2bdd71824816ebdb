-- ===== src/SeedSections/Merge.antt =====
-- MergeMaps and CombineSection of pkg/trcx/xutil/xmanager.go: the sections of several templates are
-- put together, the nested ones with those that were there before in front, and those of values with
-- the later ones over the earlier.
use tierceron.Base.{Option, none, some, List, [], ◌∷◌}
use tierceron.ConfigStore.Links.{Result, done, panicked, ◌>>=◌}
use tierceron.GoMaps.{Map, fetch, store}
use tierceron.GoStrings.{Text}
use tierceron.SeedSections.Structure.{
  Section, leaf, branch, Branches, no_branch, child, section_at, put_section,
}

-- `MergeMaps` of two maps
unfoldable pub merge_maps : Branches → Branches → Branches
unfolding section_at put_section
merge_maps x no_branch = x
merge_maps x (child k (leaf t) rest) =
    merge_maps (elim (section_at k x) [ none ↦ put_section k (leaf t) x | some s ↦ x ]) rest
merge_maps x (child k (branch below) rest) =
    merge_maps
      (elim (section_at k x) [
        | none ↦ put_section k (branch below) x
        | some (leaf t) ↦ x
        | some (branch b) ↦ put_section k (branch (merge_maps b below)) x
      ])
      rest

-- `MergeMaps` of a value that may be missing; only a map is taken for one that is
unfoldable pub merge_sections : Option Section → Section → Option Section
unfolding merge_maps
merge_sections none (branch b) = some (branch b)
merge_sections none (leaf t) = none
merge_sections (some (leaf t)) s = some (leaf t)
merge_sections (some (branch b)) (leaf t) = some (branch b)
merge_sections (some (branch b)) (branch c) = some (branch (merge_maps b c))

-- `CombineSection` for the nested sections of templates
unfoldable pub combine_templates : List Branches → Branches → Branches
unfolding merge_maps
combine_templates [] combined = combined
combine_templates (b ∷ rest) combined = combine_templates rest (merge_maps combined b)

-- the loop over the keys of a service
unfoldable pub combine_keys : Map Text → Map Text → Map Text
combine_keys [] section = section
combine_keys ((key, v) ∷ rest) section = combine_keys rest (store key v section)

abbrev pub or_new : {A : Type 0} → Option (Map A) → Map A
or_new none = []
or_new (some m) = m

-- the loop over the services of a kind
unfoldable pub combine_services : Map (Map Text) → Map (Map Text) → Map (Map Text)
unfolding combine_keys
combine_services [] services = services
combine_services ((service, section) ∷ rest) services =
    combine_services rest
      (store service (combine_keys section (or_new (fetch service services))) services)

abbrev pub combine_kind :
    Text
    → Map (Map Text)
    → Map (Map (Map Text))
    → Option (Map (Map Text))
    → Result (Map (Map (Map Text)))
combine_kind kind [] combined o = done combined
combine_kind kind (s ∷ rest) combined none = panicked
combine_kind kind (s ∷ rest) combined (some services) =
    done (store kind (combine_services (s ∷ rest) services) combined)

-- the loop over the kinds of one section
unfoldable pub combine_kinds :
    Map (Map (Map Text)) → Map (Map (Map Text)) → Result (Map (Map (Map Text)))
unfolding combine_services
combine_kinds [] combined = done combined
combine_kinds ((kind, services) ∷ rest) combined =
    combine_kind kind services combined (fetch kind combined) >>= combine_kinds rest

-- `CombineSection` for the sections of values and of secrets
unfoldable pub combine_values :
    List (Map (Map (Map Text))) → Map (Map (Map Text)) → Result (Map (Map (Map Text)))
unfolding combine_kinds
combine_values [] combined = done combined
combine_values (section ∷ rest) combined = combine_kinds section combined >>= combine_values rest
