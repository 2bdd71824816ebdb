-- ===== src/Plugins/Restored.antt =====
-- What is put back in a plugin that has been read for a region.
use tierceron.Base.{
  ◌≡◌, ◌≢◌, inl, inr, refl, sym, ap, ◌∙◌, true, false, Option, none, some, List, [], ◌∷◌, ◌++◌,
  arith, All, Bool-cases,
}
use tierceron.GoStrings.{Text, codes, text_eq, contains, has_suffix, trim_suffix, is_empty}
use tierceron.GoStrings.Equality.{text_eq_iff, text_eq-false}
use tierceron.GoStrings.Search.{has_suffix-Lacks}
use tierceron.Modifier.Vault.{
  text, bool, Value, scalar, Fields, lookup, assign, lookup-assign, lookup-assign_other,
}
use tierceron.Plugins.{
  region_fields, keep, fill_region, parse_bool, convert_value, convert_flags, flag_fields,
  get_plugin_data, put_back, restore, region_suffix,
}
use tierceron.Plugins.Kept.{Held, assign-Agrees, fill-Held, overlay-same, lookup-suffixed}

-- A flag is none of the fields that are held, and no field of the region.
abbrev Apart : Text → Text → List Text → Type 0
Apart f region = All (λ g. (text_eq g f ≡ false) × (has_suffix g region ≡ false))

trim_suffix-none : (s t : Text) → has_suffix s t ≡ false → trim_suffix s t ≡ s
unfolding trim_suffix
trim_suffix-none s t h = ground (arith, h)

keep-Held :
    (f : Text) (v : Value) (g base : Text) (now : Option Value) (x : Value) (d replaced : Fields)
    → text_eq g f ≡ false
    → text_eq base f ≡ false
    → Held f v (d, replaced)
    → Held f v (assign g x d, keep base now replaced)
keep-Held f v g base none x d replaced h n (k, l) = (
  k,
  elim l [
    | inl e ↦ inl (lookup-assign_other g f x d h ∙ e)
    | inr ((w, e), q) ↦ inr ((w, lookup-assign_other g f x d h ∙ e), q)
  ],
)
keep-Held f v g base (some y) x d replaced h n (k, l) = (
  assign-Agrees f v base y replaced (λ q. absurd (ground (arith, text_eq_iff base f, n, q))) k,
  elim l [
    | inl e ↦ inl (lookup-assign_other g f x d h ∙ e)
    | inr ((w, e), q) ↦
        inr ((w, lookup-assign_other g f x d h ∙ e), lookup-assign_other base f y replaced n ∙ q)
  ],
)

convert-Held :
    (f : Text) (v : Value) (region g : Text) (now : Option Value) (d replaced : Fields)
    → text_eq g f ≡ false
    → has_suffix g region ≡ false
    → Held f v (d, replaced)
    → Held f v (convert_value region g now (d, replaced))
convert-Held f v region g (some (scalar (text s))) d replaced h n k =
    let base = trim_suffix g region in
    let bare : base ≡ g = trim_suffix-none g region n in
    let apart : text_eq base f ≡ false = ap (λ t. text_eq t f) bare ∙ h in
    let x : Value = scalar (bool (parse_bool s)) in
    elim (Bool-cases (is_empty region)) [
      | inl e ↦ rw e (keep-Held f v g base none x d replaced h apart k)
      | inr e ↦ rw e (keep-Held f v g base (lookup base d) x d replaced h apart k)
    ]
convert-Held f v region g now d replaced h n k = k

flags-Held :
    (f : Text) (v : Value) (region : Text) (names : List Text) (e : Fields × Fields)
    → Apart f region names
    → Held f v e
    → Held f v (convert_flags region names e)
unfolding convert_flags
flags-Held f v region [] (d, replaced) h k = k
flags-Held f v region (g ∷ names) (d, replaced) ((h, n), hs) k =
    let now = lookup g d in
    flags-Held f v region names (convert_value region g now (d, replaced)) hs
      (convert-Held f v region g now d replaced h n k)

none_found : (f : Text) (v : Value) → lookup f [] ≢ some v
unfolding lookup
none_found f v e = cc

put_back_at :
    (f : Text) (v w x : Value) (suffix g : Text) (d : Fields)
    → text_eq g f ≡ true
    → (g ≡ f → x ≡ v)
    → lookup f d ≡ some w
    → lookup f (put_back suffix g x (lookup g d) d) ≡ some v
put_back_at f v w x suffix g d q kx h =
    let same : g ≡ f = (text_eq_iff g f).0 q in
    let found : lookup g d ≡ some w = ap (λ t. lookup t d) same ∙ h in
    let at = lookup-assign g x (assign (g ++ suffix) w d) in let value = kx same in rw found cc

put_back_other :
    (f : Text) (x : Value) (suffix g : Text) (now : Option Value) (d : Fields)
    → contains f suffix ≡ false
    → text_eq g f ≡ false
    → lookup f (put_back suffix g x now d) ≡ lookup f d
put_back_other f x suffix g none d n q = refl
put_back_other f x suffix g (some w) d n q =
    lookup-assign_other g f x (assign (g ++ suffix) w d) q ∙ lookup-suffixed f g suffix w d n

has_value :
    (f : Text) (v : Value) (d replaced : Fields)
    → Held f v (d, replaced)
    → (w : Value) × (lookup f d ≡ some w)
has_value f v d replaced (k, inl e) = (v, e)
has_value f v d replaced (k, inr (e, q)) = e

lookup_tail :
    (f g : Text) (x : Value) (rest : Fields)
    → text_eq g f ≡ false
    → lookup f ((g, x) ∷ rest) ≡ lookup f rest
unfolding lookup
lookup_tail f g x rest q = rw q refl

restore-Held :
    (f : Text) (v : Value) (suffix : Text) (replaced d : Fields)
    → contains f suffix ≡ false
    → Held f v (d, replaced)
    → lookup f (restore suffix replaced d) ≡ some v
unfolding restore
restore-Held f v suffix [] d n (k, inl e) = e
restore-Held f v suffix [] d n (k, inr (_, e)) = absurd (none_found f v e)
restore-Held f v suffix ((g, x) ∷ rest) d n ((kx, k), l) =
    let d' = put_back suffix g x (lookup g d) d in
    elim (Bool-cases (text_eq g f)) [
      | inl q ↦
          let (w, h) = has_value f v d ((g, x) ∷ rest) ((kx, k), l) in
          restore-Held f v suffix rest d' n (k, inl (put_back_at f v w x suffix g d q kx h))
      | inr q ↦
          let same = put_back_other f x suffix g (lookup g d) d n q in
          restore-Held f v suffix rest d' n (
            k,
            elim l [
              | inl e ↦ inl (same ∙ e)
              | inr ((w, e), r) ↦ inr ((w, same ∙ e), sym (lookup_tail f g x rest q) ∙ r)
            ],
          )
    ]

flags-Apart :
    (f region : Text)
    → f ≢ codes "copied"
    → f ≢ codes "deployed"
    → Apart f (b'~' ∷ region) flag_fields
flags-Apart f region h k = (
  (
    text_eq-false (codes "copied") f (λ e. h (sym e)),
    has_suffix-Lacks b'~' (codes "copied") region (ground arith),
  ),
  (
    (
      text_eq-false (codes "deployed") f (λ e. k (sym e)),
      has_suffix-Lacks b'~' (codes "deployed") region (ground arith),
    ),
    tt,
  ),
)

-- A base field of a plugin has the value that was read for it, when the data that is read for a
-- region is prepared for the write under the region, whatever fields the region has: a field that
-- holds no mark of the region and is neither `copied` nor `deployed`.
pub restore-get_plugin_data :
    (region : Text) (d : Fields) (f : Text) (v : Value)
    → is_empty region ≡ false
    → contains f (region_suffix region) ≡ false
    → f ≢ codes "copied"
    → f ≢ codes "deployed"
    → lookup f d ≡ some v
    → lookup f
        (restore (region_suffix region) (get_plugin_data region d).1 (get_plugin_data region d).0)
      ≡ some v
unfolding get_plugin_data
restore-get_plugin_data [] d f v r n h k l = cc
restore-get_plugin_data (c ∷ region) d f v r n h k l =
    let suffix : Text = b'~' ∷ c ∷ region in
    let filled = fill_region suffix d (region_fields suffix d) in
    let held = fill-Held f v suffix d (region_fields suffix d) n l (overlay-same f suffix d d) in
    let e = convert_flags suffix flag_fields filled in
    restore-Held f v suffix e.1 e.0 n
      (flags-Held f v suffix flag_fields filled (flags-Apart f (c ∷ region) h k) held)
