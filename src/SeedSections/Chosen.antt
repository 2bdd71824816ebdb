-- ===== src/SeedSections/Chosen.antt =====
-- Which value a key has after `parseAndSetSection` of pkg/trcx/extract/xparser.go.
use tierceron.Base.{
  ◌≡◌, ◌≢◌, ◌⊎◌, inl, inr, Bool-cases, Option-cases, refl, sym, ap, Bool, true, false, not, ◌&&◌,
  Option, none, some, List, [], ◌∷◌, arith,
}
use tierceron.ConfigStore.{ConfigDataStore, get_value}
use tierceron.ConfigStore.Links.{Result, done, refused, panicked}
use tierceron.GoMaps.{Map, fetch}
use tierceron.GoStrings.{Text, codes, contains, text_eq}
use tierceron.GoStrings.Equality.{text_eq_iff}
use tierceron.SeedSections.{
  Sections, store_value, default_secret, or_value, vault_value, proposed, is_some, may_set,
  parse_and_set_section,
}
use tierceron.SeedSections.Kept.{seed_value}
use mathlib.Core.Path.{subst}
use tierceron.SeedSections.Expected.{Sets, expected, set-expected}

-- a value that may be set again: there is none, an empty one, or the default secret
abbrev pub Unset : Option Text → Type 0
Unset none = Unit
Unset (some v) = (v ≡ []) ⊎ (v ≡ codes "<Enter Secret Here>")

-- There is no store, or none of its values is that of the key.
abbrev pub NotStored : Option ConfigDataStore → Text → List Text → Text → Type 0
NotStored none service path key = Unit
NotStored (some cds) service path key = get_value cds service path key ≡ none

-- a key without the mark of a region, or one that has a value already
abbrev pub MayBeNew : Text → Option Text → Type 0
MayBeNew key none = contains key (codes "~") ≡ false
MayBeNew key (some v) = Unit

-- Which value a key has after it has been set, by the value that it had.
pub data Choice (cds : Option ConfigDataStore) (service : Text) (path : List Text)
    (key value : Text) : Option Text → Option Text → Type 0 where
  stays :
      (v : Text)
      → v ≢ []
      → v ≢ codes "<Enter Secret Here>"
      → Choice cds service path key value (some v) (some v)
  certificate :
      (old : Option Text)
      → Unset old
      → key ≡ codes "certData"
      → Choice cds service path key value old (some (codes "data"))
  from_store :
      (old : Option Text) (holder : ConfigDataStore) (v : Text)
      → Unset old
      → key ≢ codes "certData"
      → cds ≡ some holder
      → get_value holder service path key ≡ some v
      → Choice cds service path key value old (some v)
  from_template :
      (old : Option Text)
      → Unset old
      → key ≢ codes "certData"
      → NotStored cds service path key
      → MayBeNew key old
      → Choice cds service path key value old (some value)
  left_out :
      key ≢ codes "certData"
      → NotStored cds service path key
      → contains key (codes "~") ≡ true
      → Choice cds service path key value none none

module _ (cds : Option ConfigDataStore) (service : Text) (path : List Text) (key value : Text) where
  abbrev pub Chosen : Option Text → Option Text → Type 0
  Chosen = Choice cds service path key value

  may_set-Unset : (v : Text) → may_set (some v) ≡ true → Unset (some v)
  unfolding may_set
  may_set-Unset [] h = inl refl
  may_set-Unset (c ∷ v) h = inr ((text_eq_iff (c ∷ v) default_secret).0 (ground arith))

  kept-Choice : (v : Text) → may_set (some v) ≡ false → Chosen (some v) (some v)
  unfolding may_set text_eq
  kept-Choice [] h = stays [] (λ e. cc) (λ e. cc)
  kept-Choice (c ∷ v) h = stays (c ∷ v) (λ e. cc) (λ e. cc)

  -- a new value for a key that has one
  set-Choice :
      (v : Text) (skip : Bool) (new : Text)
      → (Unset (some v) → Chosen (some v) (some new))
      → Chosen (some v) (expected (some v) skip new)
  set-Choice v skip new k = elim (Bool-cases (may_set (some v))) [
    | inl e ↦ rw e (k (may_set-Unset v e))
    | inr e ↦ rw e (kept-Choice v e)
  ]

  certificate-Choice :
      (old : Option Text) (c : Bool)
      → key ≡ codes "certData"
      → Chosen old (expected old (contains key (codes "~") && c) (codes "data"))
  unfolding contains
  certificate-Choice none c e = rw (ap (λ k. contains k (codes "~")) e) (certificate none tt e)
  certificate-Choice (some v) c e =
      set-Choice v (contains key (codes "~") && c) (codes "data") (λ u. certificate (some v) u e)

  stored-Choice :
      (old : Option Text) (c : Bool) (holder : ConfigDataStore) (v : Text)
      → key ≢ codes "certData"
      → cds ≡ some holder
      → get_value holder service path key ≡ some v
      → Chosen old (expected old (c && false) v)
  stored-Choice none true holder v n e g = from_store none holder v tt n e g
  stored-Choice none false holder v n e g = from_store none holder v tt n e g
  stored-Choice (some w) c holder v n e g =
      set-Choice w (c && false) v (λ u. from_store (some w) holder v u n e g)

  template-Choice :
      (old : Option Text)
      → key ≢ codes "certData"
      → NotStored cds service path key
      → Chosen old (expected old (contains key (codes "~") && true) value)
  template-Choice none n m = elim (Bool-cases (contains key (codes "~"))) [
    | inl e ↦ rw e (left_out n m e)
    | inr e ↦ rw e (from_template none tt n m e)
  ]
  template-Choice (some v) n m =
      set-Choice v (contains key (codes "~") && true) value (λ u. from_template (some v) u n m tt)

  plain-Choice :
      (old : Option Text) (o : Option ConfigDataStore)
      → key ≢ codes "certData"
      → cds ≡ o
      → Chosen old (
          expected old
            (contains key (codes "~") && not (is_some (store_value o service path key)))
            (or_value value (store_value o service path key)))
  plain-Choice old none n e =
      template-Choice old n (subst (λ c. NotStored c service path key) (sym e) tt)
  plain-Choice old (some holder) n e = elim (Option-cases (get_value holder service path key)) [
    | inl g ↦ rw g (template-Choice old n (subst (λ c. NotStored c service path key) (sym e) g))
    | inr (v, g) ↦ rw g (stored-Choice old (contains key (codes "~")) holder v n e g)
  ]

  expected-Choice :
      (old : Option Text)
      → Chosen old (
          expected old
            (contains key (codes "~") && not (is_some (vault_value cds service path key)))
            (proposed key value (vault_value cds service path key)))
  unfolding vault_value proposed
  expected-Choice old = elim (Bool-cases (text_eq key (codes "certData"))) [
    | inl e ↦
        rw e
          (certificate-Choice old (not (is_some none)) ((text_eq_iff key (codes "certData")).0 e))
    | inr e ↦
        rw e (plain-Choice old cds (λ q. cc ((text_eq_iff key (codes "certData")).1 q, e)) refl)
  ]

-- Where an operation returns without an error, its sections satisfy `P`.
abbrev pub Returns : (Sections → Type 0) → Result Sections → Type 0
Returns P (done m) = P m
Returns P (refused e) = ⊥
Returns P panicked = ⊥

Sets-Returns :
    (kind service key : Text) (o : Option Text) (P : Option Text → Type 0) (r : Result Sections)
    → Sets kind service key o r
    → P o
    → Returns (λ m. P (seed_value kind service key m)) r
Sets-Returns kind service key o P (done m) h p = subst P (sym h) p
Sets-Returns kind service key o P (refused e) h p = absurd h
Sets-Returns kind service key o P panicked h p = absurd h

-- If the sections have the kind, a key is set without an error and without a panic. A value that
-- stands there and is neither empty nor the default secret stays. Otherwise `certData` becomes
-- `data`; any other key takes the value that the store has for it, or, where there is no store or no
-- value in it, the one of the template, unless it has the mark of a region and no value before: then
-- it is left out.
pub parse_and_set_section-value :
    (cds : Option ConfigDataStore) (sections : Sections) (kind service : Text) (path : List Text)
    (key value : Text) (services : Map (Map Text))
    → fetch kind sections ≡ some services
    → Returns
        (λ m.
          Choice cds service path key value
            (seed_value kind service key sections)
            (seed_value kind service key m))
        (parse_and_set_section cds sections kind service path key value)
parse_and_set_section-value cds sections kind service path key value services e =
    let old = seed_value kind service key sections in
    Sets-Returns kind service key _ (Choice cds service path key value old) _
      (set-expected cds sections kind service path key value services e)
      (expected-Choice cds service path key value old)
