-- ===== src/Versions/Accepted.antt =====
-- GetAcceptedTemplatePaths of pkg/utils/vaultUtil.go: the templates that are asked for.
use tierceron.Base.{
  ℕ, suc, ltb, ◌≡◌, refl, Bool, true, false, not, ◌&&◌, ◌||◌, Option, none, some, List, [], ◌∷◌,
  ◌++◌, length, get_elem?, if◌then◌else◌, arith,
}
use tierceron.GoStrings.{Text, codes, text_eq, is_empty, split, contains, index}

-- `strings.Index`, with 0 for -1 and one more for every other index
abbrev pub place : Text → Text → ℕ
place s t = elim (index s t) [ none ↦ 0 | some i ↦ suc i ]

-- the loop over the templates for a dynamic path
unfoldable pub dynamic_accepted : (template project service : Text) → List Text → List Text
unfolding index
dynamic_accepted template project service [] = []
dynamic_accepted template project service (path ∷ rest) =
    let later = dynamic_accepted template project service rest in
    if ltb (place path template) (place path project)
      && ltb (place path project) (place path service)
    then path ∷ later
    else later

abbrev pub slashes_around : Text → Text
slashes_around s = codes "/" ++ (s ++ codes "/")

abbrev pub protected_service : Bool → Option Text → Option Text
protected_service false part = some []
protected_service true none = none
protected_service true (some part) = some (codes "/" ++ part)

-- the filter for the service: from a path of five parts, or from a short protected one; `none` is an
-- index out of range
unfoldable pub service_filter : List Text → Option Text
service_filter parts = elim (get_elem? parts 4) [
  | some part ↦ some (slashes_around part)
  | none ↦
      protected_service
        (ltb (length parts) 4
          && elim (get_elem? parts 0) [ none ↦ false | some p ↦ text_eq p (codes "Protected") ])
        (get_elem? parts 2)
]

abbrev pub is_index : Text → Bool
is_index p =
    text_eq p (codes "Restricted")
    || (text_eq p (codes "Index")
        || (text_eq p (codes "PublicIndex") || text_eq p (codes "Protected")))

abbrev pub accepted_by : Text → Option Text → Option Text → List Text → Option (List Text)
accepted_by template (some project) (some service) paths =
    some (dynamic_accepted template (slashes_around project) service paths)
accepted_by template _ _ paths = none

-- a dynamic path, of which the first part is given
abbrev pub accepted_in : Text → Option Text → List Text → List Text → Option (List Text)
accepted_in template none parts paths = some []
accepted_in template (some first) parts paths =
    if is_index first
    then accepted_by template (get_elem? parts 1) (service_filter parts) paths
    else some []

unfoldable pub with_services : (restricted : Bool) → Text → List Text → List Text
with_services restricted filter [] = []
with_services restricted filter (s ∷ rest) =
    (filter ++ (if restricted then s else s ++ codes "/")) ∷ with_services restricted filter rest

-- the loop over the projects; the filter of paths takes the place of what was wanted before
unfoldable pub wanted_paths :
    (restricted : Bool) (base : Text) → List Text → List Text → List Text → List Text → List Text
unfolding with_services
wanted_paths restricted base services sub_paths [] wanted = wanted
wanted_paths restricted base services sub_paths (project ∷ rest) wanted =
    let filter : Text = base ++ slashes_around project in
    wanted_paths restricted base services sub_paths rest (
      if not (is_empty services)
      then wanted ++ with_services restricted filter services
      else if not (is_empty sub_paths)
      then sub_paths
      else wanted ++ filter ∷ [])

-- a template once for each wanted path that it contains
unfoldable pub matches : Text → List Text → List Text
matches path [] = []
matches path (w ∷ rest) =
    let later = matches path rest in if contains path w then path ∷ later else later

unfoldable pub section_accepted : List Text → List Text → List Text
unfolding matches
section_accepted wanted [] = []
section_accepted wanted (path ∷ rest) = matches path wanted ++ section_accepted wanted rest

abbrev pub or_all : List Text → Option (List Text) → Option (List Text)
or_all paths none = none
or_all paths (some []) = some paths
or_all paths (some (p ∷ ps)) = some (p ∷ ps)

-- `GetAcceptedTemplatePaths`: all templates where none is accepted; `none` is a panic. `template` is
-- the name of the templates' folder.
unfoldable pub get_accepted_template_paths :
    (template dynamic section_key : Text) (projects services sub_paths : List Text)
    → List Text
    → Option (List Text)
unfolding dynamic_accepted service_filter wanted_paths section_accepted
get_accepted_template_paths template dynamic section_key projects services sub_paths paths =
    let restricted : Bool = text_eq section_key (codes "/Restricted/") in
    let base : Text = if restricted then [] else codes "/" ++ template in
    let parts = split dynamic (codes "/") in
    if not (is_empty dynamic)
    then or_all paths (accepted_in template (get_elem? parts 0) parts paths)
    else or_all paths (
        some (section_accepted (wanted_paths restricted base services sub_paths projects []) paths))

place-nil : (s : Text) → place s [] ≡ 1
unfolding index
place-nil [] = refl
place-nil (c ∷ s) = refl

dynamic_accepted-nil :
    (template project : Text) (paths : List Text) → dynamic_accepted template project [] paths ≡ []
unfolding dynamic_accepted
dynamic_accepted-nil template project [] = refl
dynamic_accepted-nil template project (path ∷ rest) =
    let none_before : (ltb (place path template) (place path project)
          && ltb (place path project) (place path []))
        ≡ false =
      rw (place-nil path) (ground arith) in
    rw (none_before, dynamic_accepted-nil template project rest) refl

-- A dynamic path of four parts under an index, which names no service, lets every template pass.
get_accepted_template_paths-four_parts :
    (template dynamic section_key : Text) (projects services sub_paths paths : List Text)
    (a b c d : Text)
    → is_empty dynamic ≡ false
    → split dynamic (codes "/") ≡ a ∷ b ∷ c ∷ d ∷ []
    → is_index a ≡ true
    → get_accepted_template_paths template dynamic section_key projects services sub_paths paths
      ≡ some paths
unfolding get_accepted_template_paths service_filter
get_accepted_template_paths-four_parts template dynamic section_key projects services sub_paths
      paths a b c d n e h =
    rw (n, e, h, dynamic_accepted-nil template (slashes_around b) paths) refl
