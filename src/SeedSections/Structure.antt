-- ===== src/SeedSections/Structure.antt =====
-- GetInitialTemplateStructure and AppendToTemplateSection of pkg/trcx/extract/xparser.go: the path of
-- a template, and the nested section of a seed file, a map whose values are texts or maps.
use tierceron.Base.{
  ℕ, suc, ◌-◌, Bool, Option, none, some, List, [], ◌∷◌, ◌++◌, length, if◌then◌else◌, take, drop,
}
use tierceron.GoStrings.{Text, codes, text_eq, index}

abbrev pub cut : Text → Option ℕ → Text
cut name none = name
cut name (some i) = take i name

-- the last part without its file format
unfoldable pub without_format : List Text → List Text
without_format [] = []
without_format (name ∷ []) = cut name (index name (codes ".")) ∷ []
without_format (p ∷ q ∷ ps) = p ∷ without_format (q ∷ ps)

-- The loop over the parts: each that names the folder of the templates is renamed, and the last
-- such index is kept.
unfoldable pub find_templates : Text → List Text → ℕ → ℕ → List Text × ℕ
find_templates folder [] i found = ([], found)
find_templates folder (p ∷ ps) i found =
    let here = text_eq p folder in
    let (rest, last) = find_templates folder ps (suc i) (if here then i else found) in
    ((if here then codes "templates" else p) ∷ rest, last)

-- `GetInitialTemplateStructure`: the parts, the index of the folder, and the depth; `folder` is the
-- prefix of the build followed by `_templates`.
unfoldable pub get_initial_template_structure : Text → List Text → List Text × (ℕ × ℕ)
unfolding without_format find_templates index
get_initial_template_structure folder path =
    let (parts, dir) = find_templates folder (without_format path) 0 0 in
    (parts, (dir, length parts - dir))

mutual
  pub data Section : Type 0 where
    leaf : Text → Section
    branch : Branches → Section

  pub data Branches : Type 0 where
    no_branch : Branches
    child : Text → Section → Branches → Branches

-- `level[name]`
unfoldable pub section_at : Text → Branches → Option Section
section_at name no_branch = none
section_at name (child k s rest) =
    let later = section_at name rest in if text_eq k name then some s else later

-- `level[name] = section`
unfoldable pub put_section : Text → Section → Branches → Branches
put_section name s no_branch = child name s no_branch
put_section name s (child k t rest) =
    let later = put_section name s rest in
    if text_eq k name then child k s rest else child k t later

-- the map at a name, which is a new one where there is none
abbrev pub branches_of : Option Section → Branches
branches_of (some (branch bs)) = bs
branches_of _ = no_branch

-- The loop over the parts of the path, and the entry at its end.
unfoldable pub insert_at : List Text → Text → Text → Branches → Branches
unfolding section_at put_section
insert_at [] name entry bs = put_section name (leaf entry) bs
insert_at (p ∷ ps) name entry bs =
    put_section p (branch (insert_at ps name entry (branches_of (section_at p bs)))) bs

-- `AppendToTemplateSection` for a key of a service, as its callers call it
unfoldable pub append_to_template_section :
    List Text → ℕ → (is_secret : Bool) → Text → Text → Branches → Branches
unfolding insert_at
append_to_template_section parts dir is_secret key service nested =
    let kind : Text = if is_secret then codes "[super-secrets/" else codes "[values/" in
    insert_at (drop dir parts) key (kind ++ (service ++ (codes ", " ++ (key ++ codes "]")))) nested

-- what stands at the end of a path
unfoldable pub entry_at : List Text → Text → Branches → Option Section
entry_at [] name bs = section_at name bs
entry_at (p ∷ ps) name bs = entry_at ps name (branches_of (section_at p bs))
