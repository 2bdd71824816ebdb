-- ===== src/Modifier/Vault.antt =====
-- The vault as the `Modifier` sees it: what it is asked, and what it answers. The vault itself is
-- a parameter, a function from the number of requests so far and a request to a reply.
use tierceron.Base.{
  ◌≡◌, false, arith, ap, ◌∙◌, inl, inr, Bool-cases, ℕ, Bool, Option, none, some, List, [], ◌∷◌,
  if◌then◌else◌, ℤ,
}
use tierceron.GoStrings.{Text, text_eq}
use tierceron.GoStrings.Equality.{text_eq_refl, text_eq_iff}

-- A value of a secret that is no list. `stringer` is one that implements `fmt.GoStringer`, and
-- `unsupported` is of any other type.
pub data Scalar : Type 0 where
  text : Text → Scalar
  bool : Bool → Scalar
  int64 : ℤ → Scalar
  int : ℤ → Scalar
  number : Text → Scalar
  stringer : Text → Scalar
  null : Scalar
  unsupported : Scalar

pub data Value : Type 0 where
  scalar : Scalar → Value
  items : List Scalar → Value

abbrev pub Fields : Type 0
Fields = List (Text × Value)

-- A part of a secret: missing, a map, or of another type.
pub data Part : Type 0 where
  absent : Part
  fields : Fields → Part
  other : Part

-- `api.Secret`
pub record Secret : Type 0 where
  pub data_part : Part
  pub metadata_part : Part
  pub versions_part : Part
  pub warnings : List Text

-- `eof` is a `url.Error` around EOF, and `timeout` an exceeded deadline.
pub data Error : Type 0 where
  eof : Error
  timeout : Error
  failure : Text → Error

pub record Reply : Type 0 where
  pub secret : Option Secret
  pub err : Option Error

pub data Request : Type 0 where
  write : Text → Fields → Request
  read : Text → Request
  read_version : Text → Text → Request
  list : Text → Request
  delete : Text → Request

abbrev pub Vault : Type 0
Vault = ℕ → Request → Reply

-- What an operation returns, with the number of requests and the log lines it has made.
pub data Outcome (A : Type 0) : Type 0 where
  returned : A → Option Error → ℕ → List Text → Outcome A
  panicked : Outcome A

-- `m[key]`
unfoldable pub lookup : Text → Fields → Option Value
unfolding text_eq
lookup key [] = none
lookup key ((k, v) ∷ rest) = let later = lookup key rest in if text_eq k key then some v else later

-- `m[key] = value`
unfoldable pub assign : Text → Value → Fields → Fields
unfolding text_eq
assign key value [] = (key, value) ∷ []
assign key value ((k, v) ∷ rest) =
    let later = assign key value rest in if text_eq k key then (k, value) ∷ rest else (k, v) ∷ later

pub lookup-assign : (key : Text) (v : Value) (d : Fields) → lookup key (assign key v d) ≡ some v
unfolding lookup assign
lookup-assign key v [] = ground (arith, text_eq_refl key)
lookup-assign key v ((k, w) ∷ d) = ground (arith, lookup-assign key v d)

pub lookup-assign_other :
    (key name : Text) (v : Value) (d : Fields)
    → text_eq key name ≡ false
    → lookup name (assign key v d) ≡ lookup name d
unfolding lookup assign
lookup-assign_other key name v [] h = ground (arith, h)
lookup-assign_other key name v ((k, w) ∷ d) h = elim (Bool-cases (text_eq k key)) [
  | inl e ↦
      let same : k ≡ key = (text_eq_iff k key).0 e in
      let differs : text_eq k name ≡ false = ap (λ t. text_eq t name) same ∙ h in
      ground (arith, e, differs)
  | inr e ↦ ground (arith, e, lookup-assign_other key name v d h)
]
