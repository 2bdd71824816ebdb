-- ===== src/SeedSections/Examples.antt =====
-- A template with a value and a secret, over sections where the secret has been set before.
use tierceron.Base.{◌≡◌, refl, true, false, none, some, List, [], ◌∷◌}
use tierceron.ConfigStore.Links.{done, refused}
use tierceron.GoMaps.{fetch, store}
use tierceron.GoStrings.{Text, codes, text_eq, contains, replace_all, index}
use tierceron.SeedSections.{
  Sections, Seeds, Place, service_section, vault_value, proposed, may_set, parse_and_set_section,
  set_regions, set_all, value_file_path, secret_file_path, unquoted, parse, arguments, to_seed,
}
use tierceron.SeedSections.Chosen.{Returns, Choice, parse_and_set_section-value}
use tierceron.SeedSections.Kept.{seed_value}
use tierceron.SeedSections.Merge.{
  combine_templates, combine_values, combine_kinds, combine_services, combine_keys,
}
use tierceron.SeedSections.Merged.{entry_at-combine_templates}
use tierceron.SeedSections.Structure.{
  Branches, branch, child, no_branch, leaf, append_to_template_section, insert_at, put_section,
  section_at, entry_at, get_initial_template_structure, without_format, find_templates,
}
use tierceron.SeedSections.Templates.{to_seed-value}

abbrev template_parts : List Text
template_parts = codes "templates" ∷ codes "Acme" ∷ codes "Web" ∷ codes "app" ∷ []

structure :
    get_initial_template_structure
      (codes "trc_templates")
      (codes "trc_templates" ∷ codes "Acme" ∷ codes "Web" ∷ codes "app.yml.tmpl" ∷ [])
    ≡ (template_parts, (0, 4))
unfolding get_initial_template_structure without_format find_templates index text_eq
structure = refl

abbrev web : Place
web = record { parts = template_parts; dir = 0; service = codes "Web" }

abbrev old_secrets : Sections
old_secrets = (codes "super-secrets", (codes "Web", (codes "pw", codes "s1") ∷ []) ∷ []) ∷ []

abbrev seeds : Seeds
seeds = record { nested = no_branch; values = (codes "values", []) ∷ []; secrets = old_secrets }

abbrev actions : List (List Text)
actions = (codes "or" ∷ codes ".port" ∷ codes "'80'" ∷ []) ∷ (codes ".pw" ∷ []) ∷ []

abbrev parsed : Seeds
parsed = record {
  nested =
      append_to_template_section template_parts 0 true (codes "pw") (codes "Web")
        (append_to_template_section template_parts 0 false (codes "port") (codes "Web") no_branch);
  values = (codes "values", (codes "Web", (codes "port", codes "80") ∷ []) ∷ []) ∷ [];
  secrets = old_secrets;
}

parsed_template : to_seed none web actions seeds ≡ done parsed
unfolding to_seed arguments parse set_all set_regions parse_and_set_section value_file_path
    secret_file_path unquoted service_section vault_value proposed may_set fetch store text_eq
    contains replace_all
parsed_template = refl

to_seed-value_example :
    seed_value (codes "super-secrets") (codes "Web") (codes "pw") parsed.secrets ≡ some (codes "s1")
unfolding may_set service_section fetch text_eq
to_seed-value_example =
    to_seed-value (codes "super-secrets") (codes "Web") (codes "pw") (codes "s1") none web true
      actions seeds refl refl parsed_template

parse_and_set_section-value_example :
    Returns
      (λ m.
        Choice none
          (codes "Web")
          (codes "app" ∷ [])
          (codes "pw")
          (codes "new")
          (seed_value (codes "super-secrets") (codes "Web") (codes "pw") old_secrets)
          (seed_value (codes "super-secrets") (codes "Web") (codes "pw") m))
      (parse_and_set_section none old_secrets
        (codes "super-secrets")
        (codes "Web")
        (codes "app" ∷ [])
        (codes "pw")
        (codes "new"))
unfolding fetch text_eq
parse_and_set_section-value_example =
    parse_and_set_section-value none old_secrets (codes "super-secrets") (codes "Web")
      (codes "app" ∷ []) (codes "pw") (codes "new")
      ((codes "Web", (codes "pw", codes "s1") ∷ []) ∷ []) refl

two_arguments :
    to_seed none web ((codes "a" ∷ codes "b" ∷ []) ∷ []) seeds
    ≡ refused (codes "Incorrect template element count")
unfolding to_seed arguments parse text_eq contains replace_all
two_arguments = refl

entry :
    entry_at template_parts (codes "port") parsed.nested ≡ some (leaf (codes "[values/Web, port]"))
unfolding append_to_template_section insert_at put_section section_at entry_at text_eq
entry = refl

abbrev first_template : Branches
first_template =
    child (codes "templates") (branch (child (codes "a") (leaf (codes "1")) no_branch)) no_branch

abbrev second_template : Branches
second_template =
    child (codes "templates")
      (branch
        (child (codes "a") (leaf (codes "2")) (child (codes "b") (leaf (codes "3")) no_branch)))
      no_branch

entry_at-combine_templates_example :
    entry_at
      (codes "templates" ∷ [])
      (codes "a")
      (combine_templates (second_template ∷ []) first_template)
    ≡ some (leaf (codes "1"))
unfolding entry_at section_at text_eq
entry_at-combine_templates_example =
    entry_at-combine_templates (second_template ∷ []) first_template (codes "templates" ∷ [])
      (codes "a") (codes "1") refl

later_value :
    combine_values
      (((codes "values", (codes "S", (codes "k", codes "2") ∷ []) ∷ []) ∷ []) ∷ [])
      ((codes "values", (codes "S", (codes "k", codes "1") ∷ []) ∷ []) ∷ [])
    ≡ done ((codes "values", (codes "S", (codes "k", codes "2") ∷ []) ∷ []) ∷ [])
unfolding combine_values combine_kinds combine_services combine_keys fetch store text_eq
later_value = refl
