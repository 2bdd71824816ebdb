-- ===== src/SeedSections/Templates.antt =====
-- What the lines of a template do to the sections of a seed file.
use tierceron.Base.{
  ◌≡◌, Bool, true, false, Option, none, some, List, [], ◌∷◌, if◌then◌else◌, if_cases, leb, length,
  ◌+◌,
}
use tierceron.ConfigStore.{ConfigDataStore}
use tierceron.ConfigStore.Links.{Result, done, refused, panicked}
use tierceron.ConfigStore.Stored.{Ensures, Ensures-bind}
use tierceron.GoStrings.{Text, codes}
use tierceron.SeedSections.{
  Sections, Seeds, Place, may_set, set_all, with_values, with_secrets, parse_value, parse_secret,
  parse, arguments, parse_action, to_seed, value_file_path, secret_file_path, unquoted,
  secret_default, tail,
}
use tierceron.SeedSections.Kept.{seed_value, Has, set_all-Has}
use tierceron.SeedSections.Structure.{Branches, append_to_template_section}
use mathlib.Core.Path.{subst}

abbrev pub sections_of : (is_secret : Bool) → Seeds → Sections
sections_of true s = s.secrets
sections_of false s = s.values

module _ (kind service key v : Text) (m : may_set (some v) ≡ false) (cds : Option ConfigDataStore)
    (p : Place) where
  abbrev pub SeedHas : (is_secret : Bool) → Seeds → Type 0
  SeedHas is_secret s = Has kind service key v (sections_of is_secret s)

  with_values-SeedHas :
      (is_secret : Bool) (s : Seeds) (nested : Branches) (set : Result Sections)
      → SeedHas is_secret s
      → (Has kind service key v s.values → Ensures (Has kind service key v) set)
      → Ensures (SeedHas is_secret) (with_values s nested set)
  with_values-SeedHas is_secret s nested (refused e) h c = tt
  with_values-SeedHas is_secret s nested panicked h c = tt
  with_values-SeedHas true s nested (done set) h c = h
  with_values-SeedHas false s nested (done set) h c = c h

  with_secrets-SeedHas :
      (is_secret : Bool) (s : Seeds) (nested : Branches) (set : Result Sections)
      → SeedHas is_secret s
      → (Has kind service key v s.secrets → Ensures (Has kind service key v) set)
      → Ensures (SeedHas is_secret) (with_secrets s nested set)
  with_secrets-SeedHas is_secret s nested (refused e) h c = tt
  with_secrets-SeedHas is_secret s nested panicked h c = tt
  with_secrets-SeedHas true s nested (done set) h c = c h
  with_secrets-SeedHas false s nested (done set) h c = h

  parse_value-SeedHas :
      (is_secret : Bool) (s : Seeds) (value : Text) (n : Option Text) (path : Option (List Text))
      → SeedHas is_secret s
      → Ensures (SeedHas is_secret) (parse_value cds p s value n path)
  parse_value-SeedHas is_secret s value none path h = tt
  parse_value-SeedHas is_secret s value (some n) none h = tt
  parse_value-SeedHas is_secret s value (some n) (some path) h =
      with_values-SeedHas is_secret s
        (append_to_template_section p.parts p.dir false n p.service s.nested)
        (set_all cds (codes "values") p.service path n (unquoted value) s.values) h
        (set_all-Has kind service key v cds (codes "values") p.service path n (unquoted value)
          s.values m)

  parse_secret-SeedHas :
      (is_secret : Bool) (s : Seeds) (n : Option Text) (path : Option (List Text))
      → SeedHas is_secret s
      → Ensures (SeedHas is_secret) (parse_secret cds p s n path)
  parse_secret-SeedHas is_secret s none path h = tt
  parse_secret-SeedHas is_secret s (some n) none h = tt
  parse_secret-SeedHas is_secret s (some n) (some path) h =
      with_secrets-SeedHas is_secret s
        (append_to_template_section p.parts p.dir true n p.service s.nested)
        (set_all cds (codes "super-secrets") p.service path n (secret_default n) s.secrets) h
        (set_all-Has kind service key v cds (codes "super-secrets") p.service path n
          (secret_default n) s.secrets m)

  wrong_count-SeedHas :
      (is_secret : Bool) (s : Seeds)
      → Ensures (SeedHas is_secret) (
          if leb (p.dir + 3) (length p.parts)
          then refused (codes "Incorrect template element count")
          else panicked)
  wrong_count-SeedHas is_secret s =
      if_cases (Ensures (SeedHas is_secret)) (leb (p.dir + 3) (length p.parts))
        (refused (codes "Incorrect template element count")) panicked (λ e. tt) (λ e. tt)

  parse-SeedHas :
      (is_secret : Bool) (args : List Text) (s : Seeds)
      → SeedHas is_secret s
      → Ensures (SeedHas is_secret) (parse cds p args s)
  unfolding parse
  parse-SeedHas is_secret [] s h = wrong_count-SeedHas is_secret s
  parse-SeedHas is_secret (a ∷ []) s h =
      parse_secret-SeedHas is_secret s (tail a) (secret_file_path p) h
  parse-SeedHas is_secret (a ∷ b ∷ []) s h = wrong_count-SeedHas is_secret s
  parse-SeedHas is_secret (a ∷ b ∷ c ∷ []) s h =
      parse_value-SeedHas is_secret s c (tail b) (value_file_path p) h
  parse-SeedHas is_secret (a ∷ b ∷ c ∷ d ∷ r) s h = wrong_count-SeedHas is_secret s

  parse_action-SeedHas :
      (is_secret : Bool) (o : Option (List Text)) (s : Seeds)
      → SeedHas is_secret s
      → Ensures (SeedHas is_secret) (parse_action cds p o s)
  parse_action-SeedHas is_secret none s h = tt
  parse_action-SeedHas is_secret (some args) s h = parse-SeedHas is_secret args s h

  to_seed-SeedHas :
      (is_secret : Bool) (actions : List (List Text)) (s : Seeds)
      → SeedHas is_secret s
      → Ensures (SeedHas is_secret) (to_seed cds p actions s)
  unfolding to_seed
  to_seed-SeedHas is_secret [] s h = h
  to_seed-SeedHas is_secret (action ∷ rest) s h =
      Ensures-bind (SeedHas is_secret) (SeedHas is_secret) (parse_action cds p (arguments action) s)
        (to_seed cds p rest) (parse_action-SeedHas is_secret (arguments action) s h)
        (λ next j. to_seed-SeedHas is_secret rest next j)

-- Where the lines of a template are parsed without an error, a value of the sections that is neither
-- empty nor the default secret stays, whatever the template and the store of values say.
pub to_seed-value :
    (kind service key v : Text) (cds : Option ConfigDataStore) (p : Place) (is_secret : Bool)
    (actions : List (List Text)) (s : Seeds) {after : Seeds}
    → may_set (some v) ≡ false
    → seed_value kind service key (sections_of is_secret s) ≡ some v
    → to_seed cds p actions s ≡ done after
    → seed_value kind service key (sections_of is_secret after) ≡ some v
to_seed-value kind service key v cds p is_secret actions s m h e =
    subst (Ensures (SeedHas kind service key v m cds p is_secret)) e
      (to_seed-SeedHas kind service key v m cds p is_secret actions s h)
