-- ===== src/ConfigStore/Paths.antt =====
-- The search for the paths of a project in pkg/cli/trcconfigbase/utils/dataStorePopulator.go, and
-- InitTemplateVersionData. What `List` answers for a path is a tree of folders, and the answer for
-- `templates` may be one that was kept before.
use tierceron.Base.{
  Bool, false, not, ◌&&◌, ◌||◌, Option, none, some, List, [], ◌∷◌, ◌++◌, if◌then◌else◌,
}
use tierceron.GoStrings.{Text, codes, text_eq, is_empty, has_suffix}
use tierceron.Modifier.Templates.{Folder, locked, absent, folder, Keys, no_keys, entry}

-- `len(slicey) == 1 && slicey[0].(string) == "template-file"`
unfoldable pub is_end : Keys → Bool
is_end (entry name below no_keys) = text_eq name (codes "template-file")
is_end _ = false

unfoldable pub has_key : Text → Keys → Bool
has_key name no_keys = false
has_key name (entry k below rest) = text_eq k name || has_key name rest

-- `strings.TrimRight(s, "/")`
unfoldable pub trim_right : Text → Text
trim_right [] = []
trim_right (c ∷ s) =
    let rest = trim_right s in
    if is_empty rest && text_eq (c ∷ []) (codes "/") then [] else c ∷ rest

abbrev pub end_path : Text → Bool → List Text
end_path path is_dir = if is_dir then path ∷ trim_right path ∷ [] else path ∷ []

-- `getPaths`, for a folder that can be listed: `project` is `ProjectIndex[0]`. A folder without
-- keys counts as one that has been listed.
unfoldable mutual
  unfolding is_end has_key trim_right

  pub get_paths : Text → Text → Folder → Bool → List Text
  get_paths project path locked is_dir = []
  get_paths project path absent is_dir = []
  get_paths project path (folder keys) is_dir =
      let below = paths_below project path keys keys in
      if is_end keys then end_path path is_dir else below

  -- the loop over the keys, of which `all` are those of the folder
  pub paths_below : Text → Text → Keys → Keys → List Text
  paths_below project path all no_keys = []
  paths_below project path all (entry name below rest) =
      let later = paths_below project path all rest in
      let found =
        paths_at project (path ++ name) below
          (not (has_suffix name (codes "/")) && has_key (name ++ codes "/") all)
          (has_suffix name (codes "/")) in
      if text_eq name project then later else found ++ later

  -- what stands at one key: a path that cannot be listed, or the paths below, if they are not
  -- searched under the same name with a slash
  pub paths_at : Text → Text → Folder → Bool → Bool → List Text
  paths_at project path locked again is_dir = path ∷ []
  paths_at project path absent again is_dir = path ∷ []
  paths_at project path (folder keys) again is_dir =
      let below = paths_below project path keys keys in
      if again then [] else if is_end keys then end_path path is_dir else below

abbrev pub listed_paths : Text → Text → Folder → Option (List Text)
listed_paths project path locked = none
listed_paths project path f = some (get_paths project path f false)

-- `verifyTemplatePath`: whether the path is one of a template
unfoldable pub verify_template_path : Folder → Bool
unfolding is_end
verify_template_path (folder keys) = is_end keys
verify_template_path _ = false

-- the search for a project one path deeper, among the keys of a folder
unfoldable pub inner_project : Text → Text → Keys → Option Text
inner_project project outer no_keys = none
inner_project project outer (entry name below rest) =
    let later = inner_project project outer rest in
    if text_eq project name then some (outer ++ name) else later

abbrev pub inner_of : Text → Text → Folder → Option Text
inner_of project outer (folder keys) = inner_project project outer keys
inner_of project outer _ = none

-- the loop over the projects that are there, for one that is not among them
unfoldable pub find_inner : Text → Keys → Option Text
unfolding inner_project
find_inner project no_keys = none
find_inner project (entry outer below rest) =
    let later = find_inner project rest in
    if text_eq outer (codes "Common/")
    then later
    else elim (inner_of project outer below) [ some inner ↦ some inner | none ↦ later ]

-- The projects that are used, and the last of those that were found one path deeper.
unfoldable pub used_projects : Keys → List Text → List Text × Option Text
unfolding has_key find_inner
used_projects available [] = ([], none)
used_projects available (project ∷ rest) =
    let (used, inner) = used_projects available rest in
    let name = project ++ codes "/" in
    if has_key name available then (name ∷ used, inner) else elim (find_inner name available) [
      | none ↦ (used, inner)
      | some found ↦ (found ∷ used, elim inner [ none ↦ some found | some other ↦ some other ])
    ]

unfoldable pub available_projects : Keys → List Text
available_projects no_keys = []
available_projects (entry name below rest) = name ∷ available_projects rest

abbrev pub joined : Option (List Text) → Option (List Text) → Option (List Text)
joined (some xs) (some ys) = some (xs ++ ys)
joined _ _ = none

-- the loop over the services of one project
unfoldable pub service_paths : (Text → Folder) → Text → List Text → Option (List Text)
unfolding get_paths
service_paths list project [] = some []
service_paths list project (service ∷ rest) =
    let path = codes "templates/" ++ (project ++ (service ++ codes "/")) in
    joined (listed_paths project path (list path)) (service_paths list project rest)

-- the loop over the projects
unfoldable pub project_paths :
    (Text → Folder) → (want_certs : Bool) → List Text → List Text → Option (List Text)
unfolding service_paths get_paths
project_paths list want_certs services [] = some []
project_paths list want_certs services (project ∷ rest) =
    let path = codes "templates/" ++ project in
    joined
      (if not want_certs && not (is_empty services)
        then service_paths list project services
        else listed_paths project path (list path))
      (project_paths list want_certs services rest)

abbrev pub marked : Option Text → List Text
marked none = []
marked (some inner) = (codes "!=!" ++ inner) ∷ []

abbrev pub with_marker : Option Text → Option (List Text) → Option (List Text)
with_marker inner none = none
with_marker inner (some paths) = some (paths ++ marked inner)

-- what is searched once the projects are known, with a template that is given or without
unfoldable pub search_paths :
    (Text → Folder) → Bool → Text → List Text → List Text × Option Text → Option (List Text)
unfolding project_paths verify_template_path
search_paths list want_certs template services (used, inner) = with_marker inner (
    if not want_certs && not (is_empty template)
    then (if verify_template_path (list template) then some (template ∷ []) else none)
    else project_paths list want_certs services used)

abbrev pub paths_in :
    (Text → Folder) → Bool → Text → List Text → List Text → Folder → Option (List Text)
paths_in list want_certs template projects services (folder keys) =
    search_paths list want_certs template services
      (if is_empty projects then (available_projects keys, none) else used_projects keys projects)
paths_in list want_certs template projects services _ = none

-- `GetPathsFromProject`; `none` is an error, and `dictionary` the answer for `templates`.
unfoldable pub get_paths_from_project :
    (list : Text → Folder) (dictionary : Folder) (dynamic want_certs : Bool) (template : Text)
    → List Text
    → List Text
    → Option (List Text)
unfolding search_paths used_projects verify_template_path
get_paths_from_project list dictionary dynamic want_certs template projects services =
    let searched = paths_in list want_certs template projects services dictionary in
    if dynamic && (not want_certs && not (is_empty template))
    then (if verify_template_path (list template) then some (template ∷ []) else none)
    else searched
