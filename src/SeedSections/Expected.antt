-- ===== src/SeedSections/Expected.antt =====
-- What `parseAndSetSection` of pkg/trcx/extract/xparser.go leaves of a key, by the parts of the code.
use tierceron.Base.{
  ◌≡◌, refl, sym, ap, ◌∙◌, Bool, true, false, not, ◌&&◌, ◌||◌, Option, none, some, List, [], ◌∷◌,
  if◌then◌else◌, if_cases,
}
use tierceron.ConfigStore.{ConfigDataStore}
use tierceron.ConfigStore.Links.{Result, done, refused, panicked}
use tierceron.GoMaps.{Map, fetch, store, fetch-store}
use tierceron.GoStrings.{Text, codes, contains}
use tierceron.GoStrings.Equality.{text_eq_refl}
use tierceron.SeedSections.{
  Sections, inner, service_section, vault_value, proposed, is_some, may_set, set_key,
  parse_and_set_section, replace_section,
}
use tierceron.SeedSections.Kept.{seed_value, service_section-same}
use mathlib.Core.Path.{subst}

-- what a key has after it has been set, where it had `old` before
abbrev pub expected : Option Text → (skip : Bool) → Text → Option Text
expected none skip new = if skip then none else some new
expected (some v) skip new = if may_set (some v) then some new else some v

-- What has been set, and returned without an error, by the value of the key.
abbrev pub Sets : Text → Text → Text → Option Text → Result Sections → Type 0
Sets kind service key value (done m) = seed_value kind service key m ≡ value
Sets kind service key value (refused e) = ⊥
Sets kind service key value panicked = ⊥

replaced-Sets :
    (kind service key new : Text) (section : Map Text) (sections : Sections)
    (services : Map (Map Text))
    → fetch kind sections ≡ some services
    → Sets kind service key
        (fetch key section)
        (replace_section kind service section sections (fetch kind sections))
replaced-Sets kind service key new section sections services e = rw e (
    ap (λ o. fetch key (inner o))
      (service_section-same kind service key new section services sections))

expected-set : (o : Option Text) (new : Text) → may_set o ≡ true → expected o false new ≡ some new
expected-set none new h = refl
expected-set (some v) new h = rw h refl

expected-kept : (o : Option Text) (new : Text) → may_set o ≡ false → expected o false new ≡ o
unfolding may_set
expected-kept none new h = cc
expected-kept (some v) new h = rw h refl

set_key-Sets :
    (kind service key new : Text) (sections : Sections) (services : Map (Map Text))
    (o : Option (Map Text))
    → fetch kind sections ≡ some services
    → service_section kind service sections ≡ o
    → Sets kind service key
        (expected (fetch key (inner o)) false new)
        (set_key kind service key new sections o)
unfolding fetch
set_key-Sets kind service key new sections services none e s =
    subst
      (λ x.
        Sets kind service key x
          (replace_section kind service ((key, new) ∷ []) sections (fetch kind sections)))
      (ap (λ b. if b then some new else none) (text_eq_refl key))
      (replaced-Sets kind service key new ((key, new) ∷ []) sections services e)
set_key-Sets kind service key new sections services (some section) e s =
    let old : Option Text = fetch key section in
    if_cases (Sets kind service key (expected old false new)) (may_set old) _ (done sections)
      (λ t.
        subst
          (λ x.
            Sets kind service key x
              (replace_section kind service (store key new section) sections (fetch kind sections)))
          (fetch-store key new section ∙ sym (expected-set old new t))
          (replaced-Sets kind service key new (store key new section) sections services e))
      (λ t. ap (λ o. fetch key (inner o)) s ∙ sym (expected-kept old new t))

expected-skipped :
    (old : Option Text) (c q : Bool) (new : Text)
    → (c && not (is_some old || q)) ≡ true
    → old ≡ expected old (c && not q) new
expected-skipped none c q new h = rw h refl
expected-skipped (some v) true q new h = cc
expected-skipped (some v) false q new h = cc

expected-not_skipped :
    (old : Option Text) (c q : Bool) (new : Text)
    → (c && not (is_some old || q)) ≡ false
    → expected old false new ≡ expected old (c && not q) new
expected-not_skipped none c q new h = rw h refl
expected-not_skipped (some v) c q new h = refl

-- what the section has afterwards, by the parts of the code
pub set-expected :
    (cds : Option ConfigDataStore) (sections : Sections) (kind service : Text) (path : List Text)
    (key value : Text) (services : Map (Map Text))
    → fetch kind sections ≡ some services
    → Sets kind service key
        (expected
          (seed_value kind service key sections)
          (contains key (codes "~") && not (is_some (vault_value cds service path key)))
          (proposed key value (vault_value cds service path key)))
        (parse_and_set_section cds sections kind service path key value)
unfolding parse_and_set_section
set-expected cds sections kind service path key value services e =
    let section = service_section kind service sections in
    let from_store = vault_value cds service path key in
    let new : Text = proposed key value from_store in
    let old : Option Text = fetch key (inner section) in
    let marked : Bool = contains key (codes "~") in
    if_cases (Sets kind service key (expected old (marked && not (is_some from_store)) new))
      (marked && not (is_some old || is_some from_store)) (done sections) _
      (λ t. expected-skipped old marked (is_some from_store) new t)
      (λ t.
        subst (λ x. Sets kind service key x (set_key kind service key new sections section))
          (expected-not_skipped old marked (is_some from_store) new t)
          (set_key-Sets kind service key new sections services section e refl))
