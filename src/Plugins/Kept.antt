-- ===== src/Plugins/Kept.antt =====
-- What the functions that read a plugin for a region do with one base field.
use tierceron.Base.{
  ◌≡◌, ◌⊎◌, inl, inr, refl, sym, ap, ◌∙◌, Bool, true, false, ◌&&◌, ◌||◌, some, List, [], ◌∷◌, ◌++◌,
  arith, All, Bool-cases, Option-cases, append-nil,
}
use tierceron.GoStrings.{Text, text_eq, contains, trim_suffix}
use tierceron.GoStrings.Equality.{text_eq_iff, text_eq-false}
use tierceron.GoStrings.Search.{contains-append}
use tierceron.Modifier.Vault.{Value, Fields, lookup, assign, lookup-assign, lookup-assign_other}
use tierceron.Plugins.{
  region_fields, keep, base_fields, overlay_region, region_defaults, default_fields, fill_region,
  value_or, default_of,
}

-- every value kept for a field is `v`
abbrev pub Agrees : Text → Value → Fields → Type 0
Agrees f v = All (λ (e : Text × Value). e.0 ≡ f → e.1 ≡ v)

pub assign-Agrees :
    (f : Text) (v : Value) (g : Text) (w : Value) (d : Fields)
    → (g ≡ f → w ≡ v)
    → Agrees f v d
    → Agrees f v (assign g w d)
unfolding assign
assign-Agrees f v g w [] h k = (h, tt)
assign-Agrees f v g w ((k, x) ∷ d) h (hk, hd) =
    let rest = assign-Agrees f v g w d h hd in
    elim (Bool-cases (text_eq k g)) [
      | inl e ↦ rw e ((λ q. h (sym ((text_eq_iff k g).0 e) ∙ q)), hd)
      | inr e ↦ rw e (hk, rest)
    ]

keep-Agrees :
    (f : Text) (v : Value) (g : Text) (d replaced : Fields)
    → lookup f d ≡ some v
    → Agrees f v replaced
    → Agrees f v (keep g (lookup g d) replaced)
keep-Agrees f v g d replaced h k = elim (Option-cases (lookup g d)) [
  | inl e ↦ rw e k
  | inr (w, e) ↦ rw e (assign-Agrees f v g w replaced (λ q. cc) k)
]

base_fields-Agrees :
    (f : Text) (v : Value) (region : Text) (d rest replaced : Fields)
    → lookup f d ≡ some v
    → Agrees f v replaced
    → Agrees f v (base_fields region d rest replaced)
unfolding base_fields
base_fields-Agrees f v region d [] replaced h k = k
base_fields-Agrees f v region d ((g, w) ∷ rest) replaced h k =
    let base = trim_suffix g region in
    elim (Bool-cases (contains g region)) [
      | inl e ↦ rw e (
          base_fields-Agrees f v region d rest (keep base (lookup base d) replaced) h
            (keep-Agrees f v base d replaced h k))
      | inr e ↦ rw e (base_fields-Agrees f v region d rest replaced h k)
    ]

-- whether a field of the region stands in for `f`
unfoldable pub covers : Text → Text → Fields → Bool
covers region f [] = false
covers region f ((g, w) ∷ rest) =
    (contains g region && text_eq (trim_suffix g region) f) || covers region f rest

lookup-keep :
    (f : Text) (v : Value) (g : Text) (d replaced : Fields)
    → lookup f d ≡ some v
    → lookup f replaced ≡ some v
    → lookup f (keep g (lookup g d) replaced) ≡ some v
lookup-keep f v g d replaced h k = elim (Option-cases (lookup g d)) [
  | inl e ↦ rw e k
  | inr (w, e) ↦ rw e (elim (Bool-cases (text_eq g f)) [
    | inl q ↦ let same = (text_eq_iff g f).0 q in let at = lookup-assign g w replaced in cc
    | inr q ↦ lookup-assign_other g f w replaced q ∙ k
  ])
]

base_fields-kept :
    (f : Text) (v : Value) (region : Text) (d rest replaced : Fields)
    → lookup f d ≡ some v
    → lookup f replaced ≡ some v
    → lookup f (base_fields region d rest replaced) ≡ some v
unfolding base_fields
base_fields-kept f v region d [] replaced h k = k
base_fields-kept f v region d ((g, w) ∷ rest) replaced h k =
    let base = trim_suffix g region in
    elim (Bool-cases (contains g region)) [
      | inl e ↦ rw e (
          base_fields-kept f v region d rest (keep base (lookup base d) replaced) h
            (lookup-keep f v base d replaced h k))
      | inr e ↦ rw e (base_fields-kept f v region d rest replaced h k)
    ]

keep_at :
    (f : Text) (v : Value) (g : Text) (d replaced : Fields)
    → lookup f d ≡ some v
    → text_eq g f ≡ true
    → lookup f (keep g (lookup g d) replaced) ≡ some v
keep_at f v g d replaced h q =
    let same = (text_eq_iff g f).0 q in
    let e : lookup g d ≡ some v = ap (λ x. lookup x d) same ∙ h in
    let at = lookup-assign g v replaced in rw e cc

base_fields-covers :
    (f : Text) (v : Value) (region : Text) (d rest replaced : Fields)
    → lookup f d ≡ some v
    → covers region f rest ≡ true
    → lookup f (base_fields region d rest replaced) ≡ some v
unfolding base_fields covers
base_fields-covers f v region d [] replaced h k = cc
base_fields-covers f v region d ((g, w) ∷ rest) replaced h k =
    let base = trim_suffix g region in
    let kept = keep base (lookup base d) replaced in
    elim (Bool-cases (contains g region)) [
      | inl e ↦ elim (Bool-cases (text_eq base f)) [
        | inl q ↦ rw e (base_fields-kept f v region d rest kept h (keep_at f v base d replaced h q))
        | inr q ↦ rw e (base_fields-covers f v region d rest kept h (ground arith))
      ]
      | inr e ↦ rw e (base_fields-covers f v region d rest replaced h (ground arith))
    ]

-- a field that has a value, in the entries of a plugin and in those that are kept
abbrev pub Held : Text → Value → Fields × Fields → Type 0
Held f v (d, replaced) =
    Agrees f v replaced
    × ((lookup f d ≡ some v)
        ⊎ (((w : Value) × (lookup f d ≡ some w)) × (lookup f replaced ≡ some v)))

overlay-has :
    (f : Text) (v : Value) (region : Text) (rest d : Fields)
    → lookup f d ≡ some v
    → (w : Value) × (lookup f (overlay_region region rest d) ≡ some w)
unfolding overlay_region
overlay-has f v region [] d h = (v, h)
overlay-has f v region ((g, w) ∷ rest) d h =
    let base = trim_suffix g region in
    elim (Bool-cases (text_eq base f)) [
      | inl q ↦
          let same = (text_eq_iff base f).0 q in
          let at = lookup-assign base w d in overlay-has f w region rest (assign base w d) cc
      | inr q ↦ overlay-has f v region rest (assign base w d) (lookup-assign_other base f w d q ∙ h)
    ]

pub overlay-same :
    (f : Text) (region : Text) (rest d : Fields)
    → covers region f rest ≡ false
    → lookup f (overlay_region region (region_fields region rest) d) ≡ lookup f d
unfolding overlay_region region_fields covers
overlay-same f region [] d h = refl
overlay-same f region ((g, w) ∷ rest) d h =
    let base = trim_suffix g region in
    elim (Bool-cases (contains g region)) [
      | inl e ↦ rw e (
          overlay-same f region rest (assign base w d) (ground arith)
          ∙ lookup-assign_other base f w d (ground arith))
      | inr e ↦ rw e (overlay-same f region rest d (ground arith))
    ]

suffixed-differs : (f g region : Text) → contains f region ≡ false → text_eq (g ++ region) f ≡ false
suffixed-differs f g region h = text_eq-false (g ++ region) f (λ e.
    let found : contains (g ++ region) region ≡ true =
      ap (λ t. contains t region) (sym (append-nil (g ++ region))) ∙ contains-append g region [] in
    let same : contains f region ≡ true = ap (λ t. contains t region) (sym e) ∙ found in
    ground (arith, same, h))

pub lookup-suffixed :
    (f g region : Text) (v : Value) (d : Fields)
    → contains f region ≡ false
    → lookup f (assign (g ++ region) v d) ≡ lookup f d
lookup-suffixed f g region v d h =
    lookup-assign_other (g ++ region) f v d (suffixed-differs f g region h)

defaults-Held :
    (f : Text) (v : Value) (region : Text) (names : List Text) (d replaced : Fields)
    → contains f region ≡ false
    → lookup f d ≡ some v
    → Agrees f v replaced
    → Held f v (region_defaults region names (d, replaced))
unfolding region_defaults
defaults-Held f v region [] d replaced n h k = (k, inl h)
defaults-Held f v region (g ∷ names) d replaced n h k =
    let w = value_or (default_of g) (lookup g d) in
    let same : g ≡ f → w ≡ v =
      λ q. ap (λ x. value_or (default_of g) (lookup x d)) q ∙ ap (value_or (default_of g)) h in
    defaults-Held f v region names (assign (g ++ region) w d) (assign g w replaced) n
      (lookup-suffixed f g region w d n ∙ h) (assign-Agrees f v g w replaced same k)

pub fill-Held :
    (f : Text) (v : Value) (region : Text) (d fs : Fields)
    → contains f region ≡ false
    → lookup f d ≡ some v
    → (covers region f d ≡ false → lookup f (overlay_region region fs d) ≡ lookup f d)
    → Held f v (fill_region region d fs)
fill-Held f v region d [] n h untouched =
    defaults-Held f v region default_fields d (base_fields region d d []) n h
      (base_fields-Agrees f v region d d [] h tt)
fill-Held f v region d (g ∷ fs) n h untouched = (
  base_fields-Agrees f v region d d [] h tt,
  elim (Bool-cases (covers region f d)) [
    | inl e ↦ inr (overlay-has f v region (g ∷ fs) d h, base_fields-covers f v region d d [] h e)
    | inr e ↦ inl (untouched e ∙ h)
  ],
)
