-- ===== src/SeedFields/Shown.antt =====
-- What the sections of a seed file show of one field, before and after a replacement.
use tierceron.Base.{
  ℕ, suc, ◌≡◌, ◌⊎◌, inl, inr, refl, ap, ◌∙◌, Bool, true, false, Option, none, some, List, [], ◌∷◌,
  arith, All, Bool-cases, replicate,
}
use tierceron.GoStrings.{Text, text_eq}
use tierceron.GoStrings.Equality.{text_eq_iff}
use tierceron.SeedFields.{
  Section, field_value, set_field, is_some, has_field, printed, field_line, read_sections,
  replace_sections,
}

set_field-same :
    (f v : Text) (s : Section)
    → (field_value f (set_field f v s) ≡ none) ⊎ (field_value f (set_field f v s) ≡ some v)
unfolding field_value set_field
set_field-same f v [] = inl refl
set_field-same f v ((g, w) ∷ s) = elim (Bool-cases (text_eq g f)) [
  | inl e ↦ inr (ground (arith, e))
  | inr e ↦ rw e (rw e (set_field-same f v s))
]

set_field-other :
    (f g v : Text) (s : Section)
    → text_eq g f ≡ false
    → field_value f (set_field g v s) ≡ field_value f s
unfolding field_value set_field
set_field-other f g v [] n = refl
set_field-other f g v ((k, w) ∷ s) n = elim (Bool-cases (text_eq k g)) [
  | inl e ↦
      let differs : text_eq k f ≡ false = ap (λ t. text_eq t f) ((text_eq_iff k g).0 e) ∙ n in
      ground (arith, e, differs)
  | inr e ↦ ground (arith, e, set_field-other f g v s n)
]

set_field-has :
    (f g v : Text) (s : Section)
    → is_some (field_value f (set_field g v s)) ≡ is_some (field_value f s)
unfolding field_value set_field
set_field-has f g v [] = refl
set_field-has f g v ((k, w) ∷ s) = ground (arith, set_field-has f g v s)

-- how many sections have a field
abbrev count_if : Bool → ℕ → ℕ
count_if true n = suc n
count_if false n = n

unfoldable pub occurrences : Text → List (Text × Section) → ℕ
occurrences f [] = 0
occurrences f ((name, s) ∷ rest) = count_if (is_some (field_value f s)) (occurrences f rest)

pub occurrences-replace :
    (f g v : Text) (secs : List (Text × Section))
    → occurrences f (replace_sections g v secs) ≡ occurrences f secs
unfolding occurrences replace_sections
occurrences-replace f g v [] = refl
occurrences-replace f g v ((name, s) ∷ rest) =
    let h = set_field-has f g v s in let k = occurrences-replace f g v rest in rw (h, k) refl

pub has_field-replace :
    (f g v : Text) (secs : List (Text × Section))
    → has_field f (replace_sections g v secs) ≡ has_field f secs
unfolding has_field replace_sections
has_field-replace f g v [] = refl
has_field-replace f g v ((name, s) ∷ rest) =
    let h = set_field-has f g v s in let k = has_field-replace f g v rest in rw (h, k) refl

-- every section that has the field has it with the value `c`
abbrev pub Shows : Text → Text → List (Text × Section) → Type 0
Shows f c = All (λ (e : Text × Section). (field_value f e.1 ≡ none) ⊎ (field_value f e.1 ≡ some c))

pub replace-Shows :
    (f v : Text) (secs : List (Text × Section)) → Shows f v (replace_sections f v secs)
unfolding replace_sections
replace-Shows f v [] = tt
replace-Shows f v ((name, s) ∷ rest) = (set_field-same f v s, replace-Shows f v rest)

pub replace_other-Shows :
    (f c g v : Text) (secs : List (Text × Section))
    → text_eq g f ≡ false
    → Shows f c secs
    → Shows f c (replace_sections g v secs)
unfolding replace_sections
replace_other-Shows f c g v [] n h = tt
replace_other-Shows f c g v ((name, s) ∷ rest) n (h, hs) =
    let same = set_field-other f g v s n in
    (
      elim h [ inl e ↦ inl (same ∙ e) | inr e ↦ inr (same ∙ e) ],
      replace_other-Shows f c g v rest n hs,
    )

pub read_sections-Shows :
    (decrypt : Text → Option Text) (f c p : Text) (secs : List (Text × Section))
    → decrypt c ≡ some p
    → Shows f c secs
    → read_sections decrypt f secs ≡ printed (replicate (occurrences f secs) (field_line f p))
unfolding read_sections occurrences
read_sections-Shows decrypt f c p [] d h = refl
read_sections-Shows decrypt f c p ((name, s) ∷ rest) d (h, hs) =
    let k = read_sections-Shows decrypt f c p rest d hs in
    elim h [ inl e ↦ rw e k | inr e ↦ rw (e, d, k) refl ]
