-- ===== src/Modifier/Templates/Complete.antt =====
-- Every template below a folder is found.
use tierceron.Base.{◌≡◌, refl, true, false, some, List, [], ◌∷◌, ◌++◌, arith, Bool-cases, inl, inr}
use tierceron.GoStrings.{Text, text_eq, is_empty}
use tierceron.GoStrings.Equality.{mem_text, text_eq_refl}
use tierceron.Modifier.Templates.{
  Folder, folder, Keys, entry, is_template, template_file_recurse, recurse_keys, sub_paths,
  get_template_file_paths,
}

-- `target` is the path of a template at or below a folder, with no template on the way to it
mutual
  pub data TemplateAt : Text → Folder → Text → Type 0 where
    here :
        {path : Text} {keys : Keys} → is_template keys ≡ true → TemplateAt path (folder keys) path
    deeper :
        {path target : Text} {keys : Keys}
        → is_template keys ≡ false
        → TemplateBelow path keys target
        → TemplateAt path (folder keys) target

  pub data TemplateBelow : Text → Keys → Text → Type 0 where
    first :
        {path target name : Text} {below : Folder} {rest : Keys}
        → TemplateAt (path ++ name) below target
        → TemplateBelow path (entry name below rest) target
    later :
        {path target name : Text} {below : Folder} {rest : Keys}
        → TemplateBelow path rest target
        → TemplateBelow path (entry name below rest) target

mem_text-append :
    (t : Text) (xs ys : List Text) → mem_text t xs ≡ true → mem_text t (xs ++ ys) ≡ true
unfolding mem_text
mem_text-append t [] ys h = cc
mem_text-append t (x ∷ xs) ys h = elim (Bool-cases (text_eq t x)) [
  | inl e ↦ ground (arith, e)
  | inr e ↦ let rest = mem_text-append t xs ys (ground (arith, e, h)) in ground (arith, rest)
]

mem_text-append_right :
    (t : Text) (xs ys : List Text) → mem_text t ys ≡ true → mem_text t (xs ++ ys) ≡ true
unfolding mem_text
mem_text-append_right t [] ys h = h
mem_text-append_right t (x ∷ xs) ys h =
    let rest = mem_text-append_right t xs ys h in ground (arith, rest)

mem_text-cons : (t x : Text) (xs : List Text) → mem_text t xs ≡ true → mem_text t (x ∷ xs) ≡ true
unfolding mem_text
mem_text-cons t x xs h = ground (arith, h)

mutual
  unfolding template_file_recurse mem_text

  recurse_complete :
      {path target : Text} {f : Folder}
      → TemplateAt path f target
      → mem_text target (template_file_recurse path f) ≡ true
  recurse_complete {path} (here e) = rw (e, text_eq_refl path) refl
  recurse_complete {path} {target} (deeper {keys = keys} e t) = rw e (keys_complete t)

  keys_complete :
      {path target : Text} {keys : Keys}
      → TemplateBelow path keys target
      → mem_text target (recurse_keys path keys) ≡ true
  keys_complete {path} {target} (first {name = name} {below = below} {rest = rest} t) =
      mem_text-append target (template_file_recurse (path ++ name) below)
        ((path ++ name) ∷ recurse_keys path rest) (recurse_complete t)
  keys_complete {path} {target} (later {name = name} {below = below} {rest = rest} t) =
      mem_text-append_right target (template_file_recurse (path ++ name) below)
        ((path ++ name) ∷ recurse_keys path rest)
        (mem_text-cons target (path ++ name) (recurse_keys path rest) (keys_complete t))

mem_text-filled : (t : Text) (xs : List Text) → mem_text t xs ≡ true → is_empty xs ≡ false
unfolding mem_text
mem_text-filled t [] h = cc
mem_text-filled t (x ∷ xs) h = refl

sub_paths_complete :
    {path target : Text} {keys : Keys}
    → TemplateBelow path keys target
    → mem_text target (sub_paths path keys) ≡ true
unfolding sub_paths
sub_paths_complete {path} {target} (first {name = name} {below = below} {rest = rest} t) =
    mem_text-append target (template_file_recurse (path ++ name) below) (sub_paths path rest)
      (recurse_complete t)
sub_paths_complete {path} {target} (later {name = name} {below = below} {rest = rest} t) =
    mem_text-append_right target (template_file_recurse (path ++ name) below) (sub_paths path rest)
      (sub_paths_complete t)

-- `GetTemplateFilePaths` of a folder that can be listed finds every template below the folder that
-- has no template on the way to it.
pub get_template_file_paths_complete :
    (path target : Text) (keys : Keys)
    → TemplateBelow path keys target
    → (found : List Text) × (get_template_file_paths path (folder keys) ≡ some found)
      × (mem_text target found ≡ true)
unfolding get_template_file_paths
get_template_file_paths_complete path target keys t =
    let h = sub_paths_complete t in
    (sub_paths path keys, rw (mem_text-filled target (sub_paths path keys) h) refl, h)
