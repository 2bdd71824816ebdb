-- ===== src/Versions/Projects/Names.antt =====
-- What `GetProjectService` finds in a path.
use tierceron.Base.{
  ℕ, suc, ◌+◌, ◌≡◌, ◌≢◌, refl, ap, ◌∙◌, false, Option, none, some, List, [], ◌∷◌, ◌++◌, length,
  get_elem?-append_right, append-cons_ne_nil, arith, append-nil, take-length, All,
}
use tierceron.GoStrings.{Text, codes, contains, replace_all, join}
use tierceron.GoStrings.Equality.{text_eq_refl, mem_text, text_eq_iff}
use tierceron.GoStrings.Search.{Lacks}
use tierceron.GoStrings.Parts.{replace_all-Lacks, Lacks-replace_all}
use tierceron.GoStrings.Split.{split-join, index-Lacks, index-append}
use tierceron.Versions.Projects.{slashes, offset_from, clean_service, get_project_service}

-- the components before the templates folder, the folder, the project, the service and the rest
abbrev pub template_path : Text → List Text → Text → Text → List Text → Text
template_path folder before project service rest =
    join (before ++ folder ∷ project ∷ service ∷ rest) (codes "/")

offset_from-append :
    (folder : Text) (i : ℕ) (before rest : List Text)
    → mem_text folder before ≡ false
    → offset_from folder i (before ++ folder ∷ rest) ≡ i + length before
unfolding offset_from mem_text
offset_from-append folder i [] rest h = ground (arith, text_eq_refl folder)
offset_from-append folder i (c ∷ before) rest h = ground (
  arith,
  offset_from-append folder (suc i) before rest,
  text_eq_iff c folder,
  text_eq_iff folder c,
)

slashes-Lacks : (file : Text) → Lacks b'\\' file → slashes file ≡ file
unfolding slashes
slashes-Lacks file h =
    ap (λ (t : Text). replace_all t (codes "\\") (codes "/"))
      (replace_all-Lacks b'\\' (codes "\\") (codes "/") file h)
    ∙ replace_all-Lacks b'\\' [] (codes "/") file h

-- The file of a template's path that `GetProjectService` returns holds no backslash.
Lacks-slashes : (file : Text) → Lacks b'\\' (slashes file)
unfolding slashes
Lacks-slashes file =
    Lacks-replace_all b'\\' (codes "/") (replace_all file (codes "\\\\") (codes "/")) (ground arith)

-- the extension of a file's name, with its dot
abbrev pub extension : Option Text → Text
extension none = []
extension (some e) = b'.' ∷ e

clean_service-extension :
    (file name : Text) (ext : Option Text)
    → contains file (codes "Common") ≡ false
    → name ≢ []
    → Lacks b'.' name
    → clean_service file (name ++ extension ext) ≡ name
unfolding clean_service
clean_service-extension file [] ext h k l = absurd (k refl)
clean_service-extension file (c ∷ name) none h k l =
    ground (arith, append-nil name, index-Lacks b'.' (c ∷ name) l)
clean_service-extension file (c ∷ name) (some e) h k l =
    ground (arith, index-append b'.' (c ∷ name) e l, take-length name (b'.' ∷ e))

-- In a path whose components hold no slash and no backslash, `GetProjectService` finds the project
-- and the service that follow the first templates folder, wherever that stands, and cuts the
-- service at its first dot, if the path does not hold the text Common, and the service does not
-- begin with a dot.
get_project_service-path :
    (folder project name : Text) (ext : Option Text) (before rest : List Text)
    → let path = template_path folder before project (name ++ extension ext) rest in
      Lacks b'\\' path
      → contains path (codes "Common") ≡ false
      → mem_text folder before ≡ false
      → All (Lacks b'/') (before ++ folder ∷ project ∷ (name ++ extension ext) ∷ rest)
      → name ≢ []
      → Lacks b'.' name
      → get_project_service folder path ≡ some (project, name, path)
unfolding get_project_service
get_project_service-path folder project name ext before rest slashed uncommon first plain k l =
    let service : Text = name ++ extension ext in
    let path : Text = template_path folder before project service rest in
    let components : List Text = before ++ folder ∷ project ∷ service ∷ rest in
    ground (
      arith,
      slashes-Lacks path slashed,
      split-join b'/' components (append-cons_ne_nil before folder (project ∷ service ∷ rest))
          plain,
      offset_from-append folder 0 before (project ∷ service ∷ rest) first,
      get_elem?-append_right before (folder ∷ project ∷ service ∷ rest) 1,
      get_elem?-append_right before (folder ∷ project ∷ service ∷ rest) 2,
      clean_service-extension path name ext uncommon k l,
    )
