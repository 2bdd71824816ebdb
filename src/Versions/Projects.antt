-- ===== src/Versions/Projects.antt =====
-- `GetProjectService`, `GetProjectServices` and `GetTemplateFileName`: the project, the service and
-- the file name that a template's path names. `none` is the panic of an index out of range.
pub mod Names
use tierceron.Base.{
  ℕ, zero, suc, ◌+◌, Bool, true, false, not, Option, none, some, List, [], ◌∷◌, ◌++◌, get_elem?,
  take, if◌then◌else◌,
}
use tierceron.GoStrings.{Text, codes, text_eq, contains, index, split, replace_all}

-- `strings.ReplaceAll(strings.ReplaceAll(templateFile, "\\\\", "/"), "\\", "/")`
unfoldable pub slashes : Text → Text
unfolding replace_all
slashes file = replace_all (replace_all file (codes "\\\\") (codes "/")) (codes "\\") (codes "/")

-- The position of the first component that is the templates folder, and 0 where there is none.
unfoldable pub offset_from : Text → ℕ → List Text → ℕ
unfolding text_eq
offset_from folder i [] = 0
offset_from folder i (component ∷ components) =
    let rest = offset_from folder (suc i) components in if text_eq component folder then i else rest

abbrev cut_at : Text → Option ℕ → Text
cut_at service none = service
cut_at service (some i) = take i service

abbrev head_or : Text → List Text → Text
head_or d [] = d
head_or d (p ∷ ps) = p

abbrev positive : Option ℕ → Option ℕ
positive none = none
positive (some zero) = none
positive (some (suc i)) = some (suc i)

-- the clean up of the service name; `strings.Index` is positive, or nothing is cut
unfoldable pub clean_service : Text → Text → Text
unfolding contains index split
clean_service file service =
    if not (contains file (codes "Common"))
    then cut_at service (positive (index service (codes ".")))
    else if contains service (codes ".mf.tmpl")
    then head_or service (split service (codes ".mf.tmpl"))
    else service

abbrev project_and_service : Text → Option Text → Option Text → Option (Text × Text × Text)
project_and_service file none service = none
project_and_service file (some project) none = none
project_and_service file (some project) (some service) =
    some (project, clean_service file service, file)

-- `GetProjectService`; `folder` is the templates folder of the build, `GetFolderPrefix(nil) +
-- "_templates"`.
unfoldable pub get_project_service : Text → Text → Option (Text × Text × Text)
get_project_service folder template_file =
    let file = slashes template_file in
    let components = split file (codes "/") in
    let base = offset_from folder 0 components in
    project_and_service file (get_elem? components (base + 1)) (get_elem? components (base + 2))

abbrev add_service :
    Option (Text × Text × Text)
    → Option (List Text × List Text × List Text)
    → Option (List Text × List Text × List Text)
add_service none rest = none
add_service (some (p, s, f)) none = none
add_service (some (p, s, f)) (some (ps, ss, fs)) = some (p ∷ ps, s ∷ ss, f ∷ fs)

-- `GetProjectServices`
unfoldable pub get_project_services : Text → List Text → Option (List Text × List Text × List Text)
get_project_services folder [] = some ([], [], [])
get_project_services folder (file ∷ files) =
    add_service (get_project_service folder file) (get_project_services folder files)

abbrev last_or : Text → List Text → Text
last_or d [] = d
last_or d (p ∷ ps) = last_or p ps

-- `GetTemplateFileName`
unfoldable pub get_template_file_name : Text → Text → Text
unfolding split
get_template_file_name file service =
    head_or [] (split (last_or [] (split file (service ++ codes "/"))) (codes "."))
