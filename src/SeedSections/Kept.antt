-- ===== src/SeedSections/Kept.antt =====
-- A value of a seed section that is neither empty nor the default stays.
use tierceron.Base.{
  ◌≡◌, refl, sym, ap, ◌∙◌, true, false, not, ◌&&◌, ◌||◌, Option, none, some, List, [], ◌∷◌, ◌++◌,
  inl, inr, Bool-cases, if_cases,
}
use tierceron.ConfigStore.{ConfigDataStore}
use tierceron.ConfigStore.Links.{done}
use tierceron.ConfigStore.Stored.{Ensures, Ensures-bind}
use tierceron.GoMaps.{Map, fetch, store, fetch-store, fetch-store_other}
use tierceron.GoStrings.{Text, codes, text_eq, contains}
use tierceron.GoStrings.Equality.{text_eq_iff}
use tierceron.SeedSections.{
  Sections, inner, service_section, vault_value, proposed, is_some, may_set, replace_section,
  set_key, parse_and_set_section, set_regions, set_all, regions_of,
}
use mathlib.Core.Path.{subst}

-- the value of a key in the section of a service
abbrev pub seed_value : Text → Text → Text → Sections → Option Text
seed_value kind service key sections = fetch key (inner (service_section kind service sections))

module _ (kind service key v : Text) where
  -- the section of a service after it has been replaced
  pub service_section-same :
      (section : Map Text) (services : Map (Map Text)) (sections : Sections)
      → service_section kind service (store kind (store service section services) sections)
        ≡ some section
  unfolding service_section
  service_section-same section services sections =
      rw (fetch-store kind (store service section services) sections)
        (fetch-store service section services)

  service_section-other_kind :
      (k : Text) (services : Map (Map Text)) (sections : Sections)
      → text_eq k kind ≡ false
      → service_section kind service (store k services sections)
        ≡ service_section kind service sections
  unfolding service_section
  service_section-other_kind k services sections h =
      ap (λ o. fetch service (inner o)) (fetch-store_other k kind services sections h)

  service_section-other :
      (s : Text) (section : Map Text) (services : Map (Map Text)) (sections : Sections)
      → fetch kind sections ≡ some services
      → text_eq s service ≡ false
      → service_section kind service (store kind (store s section services) sections)
        ≡ service_section kind service sections
  unfolding service_section
  service_section-other s section services sections e h =
      rw (fetch-store kind (store s section services) sections, e)
        (fetch-store_other s service section services h)

  abbrev pub Has : Sections → Type 0
  Has sections = seed_value kind service key sections ≡ some v

  -- A section is replaced by one that has the value too, where it is that of the value.
  replace_section-Has :
      (k s : Text) (section : Map Text) (sections : Sections) (o : Option (Map (Map Text)))
      → fetch k sections ≡ o
      → (k ≡ kind → s ≡ service → fetch key section ≡ some v)
      → Has sections
      → Ensures Has (replace_section k s section sections o)
  replace_section-Has k s section sections none e c h = tt
  replace_section-Has k s section sections (some services) e c h =
      elim (Bool-cases (text_eq k kind)) [
        | inr n ↦
            ap (λ o. fetch key (inner o))
              (service_section-other_kind k (store s section services) sections n)
            ∙ h
        | inl t ↦
            let same : k ≡ kind = (text_eq_iff k kind).0 t in
            let there : fetch kind sections ≡ some services =
              subst (λ x. fetch x sections ≡ some services) same e in
            subst (λ x. Has (store x (store s section services) sections)) (sym same)
              (elim (Bool-cases (text_eq s service)) [
                | inr n ↦
                    ap (λ o. fetch key (inner o))
                      (service_section-other s section services sections there n)
                    ∙ h
                | inl u ↦
                    let same_service : s ≡ service = (text_eq_iff s service).0 u in
                    subst (λ x. Has (store kind (store x section services) sections))
                      (sym same_service)
                      (ap (λ o. fetch key (inner o))
                          (service_section-same section services sections)
                        ∙ c same same_service)
              ])
      ]

  -- what the section of the value says of it
  section-value :
      (k s : Text) (sections : Sections) (o : Option (Map Text))
      → service_section k s sections ≡ o
      → Has sections
      → k ≡ kind
      → s ≡ service
      → fetch key (inner o) ≡ some v
  section-value k s sections o e h p q =
      subst (λ x. fetch key (inner x) ≡ some v)
        (sym (ap (λ x. service_section x service sections) p)
          ∙ (sym (ap (λ x. service_section k x sections) q) ∙ e))
        h

  stored-value :
      (n value : Text) (section : Map Text)
      → may_set (some v) ≡ false
      → may_set (fetch n section) ≡ true
      → fetch key section ≡ some v
      → fetch key (store n value section) ≡ some v
  stored-value n value section m t h = elim (Bool-cases (text_eq n key)) [
    | inr d ↦ fetch-store_other n key value section d ∙ h
    | inl d ↦
        let same : n ≡ key = (text_eq_iff n key).0 d in
        let found : fetch n section ≡ some v = ap (λ x. fetch x section) same ∙ h in
        let bad : may_set (some v) ≡ true = sym (ap may_set found) ∙ t in cc
  ]

  set_key-Has :
      (k s n value : Text) (sections : Sections) (o : Option (Map Text))
      → may_set (some v) ≡ false
      → service_section k s sections ≡ o
      → Has sections
      → Ensures Has (set_key k s n value sections o)
  set_key-Has k s n value sections none m e h =
      replace_section-Has k s ((n, value) ∷ []) sections (fetch k sections) refl
        (λ p q. let bad = section-value k s sections none e h p q in unfold fetch in cc) h
  set_key-Has k s n value sections (some section) m e h =
      if_cases (Ensures Has) (may_set (fetch n section)) _ (done sections)
        (λ t.
          replace_section-Has k s (store n value section) sections (fetch k sections) refl
            (λ p q.
              stored-value n value section m t (section-value k s sections (some section) e h p q))
            h)
        (λ t. h)

  parse_and_set_section-Has :
      (cds : Option ConfigDataStore) (sections : Sections) (k s : Text) (path : List Text)
      (n value : Text)
      → may_set (some v) ≡ false
      → Has sections
      → Ensures Has (parse_and_set_section cds sections k s path n value)
  unfolding parse_and_set_section
  parse_and_set_section-Has cds sections k s path n value m h =
      let section = service_section k s sections in
      let from_store = vault_value cds s path n in
      if_cases (Ensures Has)
        (contains n (codes "~") && not (is_some (fetch n (inner section)) || is_some from_store))
        (done sections) _ (λ e. h)
        (λ e. set_key-Has k s n (proposed n value from_store) sections section m refl h)

  set_regions-Has :
      (cds : Option ConfigDataStore) (k s : Text) (path : List Text) (n value : Text)
      (regions : List Text) (sections : Sections)
      → may_set (some v) ≡ false
      → Has sections
      → Ensures Has (set_regions cds k s path n value regions sections)
  unfolding set_regions
  set_regions-Has cds k s path n value [] sections m h = h
  set_regions-Has cds k s path n value (region ∷ rest) sections m h =
      Ensures-bind Has Has
        (parse_and_set_section cds sections k s path (n ++ (codes "~" ++ region)) value)
        (set_regions cds k s path n value rest)
        (parse_and_set_section-Has cds sections k s path (n ++ (codes "~" ++ region)) value m h)
        (λ next j. set_regions-Has cds k s path n value rest next m j)

  pub set_all-Has :
      (cds : Option ConfigDataStore) (k s : Text) (path : List Text) (n value : Text)
      (sections : Sections)
      → may_set (some v) ≡ false
      → Has sections
      → Ensures Has (set_all cds k s path n value sections)
  unfolding set_all
  set_all-Has cds k s path n value sections m h =
      Ensures-bind Has Has (parse_and_set_section cds sections k s path n value)
        (set_regions cds k s path n value (regions_of cds))
        (parse_and_set_section-Has cds sections k s path n value m h)
        (λ next j. set_regions-Has cds k s path n value (regions_of cds) next m j)
