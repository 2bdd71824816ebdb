-- ===== src/Modifier/Templates/Examples.antt =====
-- A project with two services, and the index of a service.
use tierceron.Base.{◌≡◌, refl, Bool, true, false, none, some, List, [], ◌∷◌}
use tierceron.GoStrings.{Text, codes, text_eq, split}
use tierceron.GoStrings.Equality.{mem_text}
use tierceron.Modifier.Templates.{
  Listing, missing, listed, Folder, locked, folder, Keys, no_keys, entry, is_template,
  template_file_recurse, sub_paths, get_template_file_paths, get_path_end, last_part,
  find_index_for_service, find_index, panicked,
}
use tierceron.Modifier.Templates.Complete.{
  here, deeper, TemplateBelow, first, later, get_template_file_paths_complete,
}

abbrev marked : Folder
marked = folder (entry (codes "template-file") locked no_keys)

-- `web/` holds a template, and `db/` a folder that holds one.
abbrev project : Keys
project =
    entry (codes "web/") marked
      (entry (codes "db/") (folder (entry (codes "conf/") marked no_keys)) no_keys)

abbrev root : Text
root = codes "templates/Hive/"

conf_below : TemplateBelow root project (codes "templates/Hive/db/conf/")
unfolding is_template text_eq
conf_below = later (first (deeper refl (first (here refl))))

get_template_file_paths_complete_example :
    (found : List Text) × (get_template_file_paths root (folder project) ≡ some found)
    × (mem_text (codes "templates/Hive/db/conf/") found ≡ true)
get_template_file_paths_complete_example =
    get_template_file_paths_complete root (codes "templates/Hive/db/conf/") project conf_below

-- A template that stands below another folder is listed twice.
folder_listed :
    get_template_file_paths root (folder project)
    ≡ some (
        codes "templates/Hive/web/"
        ∷ codes "templates/Hive/db/conf/"
        ∷ codes "templates/Hive/db/conf/"
        ∷ [])
unfolding get_template_file_paths sub_paths template_file_recurse is_template text_eq
folder_listed = refl

path_end : get_path_end (codes "a/b//") ≡ some (codes "b")
unfolding get_path_end last_part split
path_end = refl

no_path_end : get_path_end (codes "//") ≡ none
unfolding get_path_end last_part split
no_path_end = refl

abbrev at_root : Bool → Listing
at_root true = listed (codes "region/" ∷ [])
at_root false = missing

abbrev one_region : Text → Listing
one_region path = at_root (text_eq path (codes "super-secrets/Index/Hive"))

-- An index that is gone when it is listed is a panic.
index_gone : find_index_for_service one_region (codes "Hive") (codes "Web") ≡ panicked
unfolding find_index_for_service find_index text_eq
index_gone = refl
