-- ===== src/GoMaps.antt =====
-- Go maps with text keys, as lists of their entries in the order in which a `range` visits them.
use tierceron.Base.{
  ◌≡◌, ◌≢◌, refl, false, Option, none, some, List, [], ◌∷◌, arith, if◌then◌else◌, Bool-cases, inl,
  inr, ap, ◌∙◌,
}
use tierceron.GoStrings.{Text, text_eq}
use tierceron.GoStrings.Equality.{text_eq_refl, text_eq_iff}

abbrev pub Map : Type 0 → Type 0
Map A = List (Text × A)

module _ {A : Type 0} where
  -- `m[key]`
  unfoldable pub fetch : Text → Map A → Option A
  unfolding text_eq
  fetch key [] = none
  fetch key ((k, v) ∷ rest) = let later = fetch key rest in if text_eq k key then some v else later

  -- `m[key] = value`
  unfoldable pub store : Text → A → Map A → Map A
  unfolding text_eq
  store key value [] = (key, value) ∷ []
  store key value ((k, v) ∷ rest) =
      let later = store key value rest in
      if text_eq k key then (k, value) ∷ rest else (k, v) ∷ later

  -- `delete(m, key)`
  unfoldable pub discard : Text → Map A → Map A
  unfolding text_eq
  discard key [] = []
  discard key ((k, v) ∷ rest) =
      let later = discard key rest in if text_eq k key then later else (k, v) ∷ later

  abbrev pub keys_of : Map A → List Text
  keys_of [] = []
  keys_of ((k, v) ∷ rest) = k ∷ keys_of rest

  pub fetch-store : (key : Text) (v : A) (m : Map A) → fetch key (store key v m) ≡ some v
  unfolding fetch store
  fetch-store key v [] = ground (arith, text_eq_refl key)
  fetch-store key v ((k, w) ∷ m) = ground (arith, fetch-store key v m)

  pub fetch-store_other :
      (key name : Text) (v : A) (m : Map A)
      → text_eq key name ≡ false
      → fetch name (store key v m) ≡ fetch name m
  unfolding fetch store
  fetch-store_other key name v [] h = ground (arith, h)
  fetch-store_other key name v ((k, w) ∷ m) h = elim (Bool-cases (text_eq k key)) [
    | inl e ↦
        let same : k ≡ key = (text_eq_iff k key).0 e in
        let differs : text_eq k name ≡ false = ap (λ t. text_eq t name) same ∙ h in
        ground (arith, e, differs)
    | inr e ↦ ground (arith, e, fetch-store_other key name v m h)
  ]

  pub store_ne_nil : (key : Text) (v : A) (m : Map A) → store key v m ≢ []
  unfolding store
  store_ne_nil key v [] = λ e. cc
  store_ne_nil key v ((k, w) ∷ m) = elim (Bool-cases (text_eq k key)) [
    | inl e ↦ rw e (λ p. cc)
    | inr e ↦ rw e (λ p. cc)
  ]

  pub fetch-discard : (key : Text) (m : Map A) → fetch key (discard key m) ≡ none
  unfolding fetch discard
  fetch-discard key [] = refl
  fetch-discard key ((k, v) ∷ m) = ground (arith, fetch-discard key m)

  pub fetch-discard_other :
      (key name : Text) (m : Map A)
      → text_eq key name ≡ false
      → fetch name (discard key m) ≡ fetch name m
  unfolding fetch discard
  fetch-discard_other key name [] h = refl
  fetch-discard_other key name ((k, w) ∷ m) h = elim (Bool-cases (text_eq k key)) [
    | inl e ↦
        let same : k ≡ key = (text_eq_iff k key).0 e in
        let differs : text_eq k name ≡ false = ap (λ t. text_eq t name) same ∙ h in
        ground (arith, e, differs, fetch-discard_other key name m h)
    | inr e ↦ ground (arith, e, fetch-discard_other key name m h)
  ]
