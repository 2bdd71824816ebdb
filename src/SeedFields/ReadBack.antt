-- ===== src/SeedFields/ReadBack.antt =====
-- Fields that are replaced in a seed file and read from it afterwards.
use tierceron.Base.{
  ℕ, ◌≡◌, ◌⊎◌, inl, inr, refl, ap, ◌∙◌, true, false, ◌||◌, Option, some, List, [], ◌∷◌, ◌++◌, arith,
  All, Bool-cases, if◌then◌else◌, replicate,
}
use tierceron.GoStrings.{Text, text_eq}
use tierceron.SeedFields.{
  Seed, has_field, printed, field_line, read_field, field_reader, replace_field, replace_fields,
  field_replacer,
}
use tierceron.SeedFields.Shown.{
  occurrences, occurrences-replace, has_field-replace, Shows, replace-Shows, replace_other-Shows,
  read_sections-Shows,
}

-- how many lines a field is read in
abbrev pub times : Text → Seed → ℕ
times f seed =
    if has_field f seed.secrets then occurrences f seed.secrets else occurrences f seed.values

abbrev pub Present : Text → Seed → Type 0
Present f seed = (has_field f seed.secrets || has_field f seed.values) ≡ true

-- the field is read as `c` wherever it is read
abbrev ShowsIn : Text → Text → Seed → Type 0
ShowsIn f c seed =
    ((has_field f seed.secrets ≡ true) × Shows f c seed.secrets)
    ⊎ ((has_field f seed.secrets ≡ false)
        × (has_field f seed.values ≡ true)
        × Shows f c seed.values)

read_field-ShowsIn :
    (decrypt : Text → Option Text) (f c p : Text) (seed : Seed)
    → decrypt c ≡ some p
    → ShowsIn f c seed
    → read_field decrypt f seed ≡ printed (replicate (times f seed) (field_line f p))
unfolding read_field
read_field-ShowsIn decrypt f c p seed d (inl (h, k)) =
    rw (h, read_sections-Shows decrypt f c p seed.secrets d k) refl
read_field-ShowsIn decrypt f c p seed d (inr (h, n, k)) =
    rw (h, n, read_sections-Shows decrypt f c p seed.values d k) refl

replace_field-ShowsIn :
    (f v : Text) (seed : Seed) → Present f seed → ShowsIn f v (replace_field f v seed)
unfolding replace_field
replace_field-ShowsIn f v seed h = elim (Bool-cases (has_field f seed.secrets)) [
  | inl e ↦ rw e (inl (has_field-replace f f v seed.secrets ∙ e, replace-Shows f v seed.secrets))
  | inr e ↦
      let found : has_field f seed.values ≡ true = ground (arith, h, e) in
      rw e (inr (e, has_field-replace f f v seed.values ∙ found, replace-Shows f v seed.values))
]

replace_other-ShowsIn :
    (f c g v : Text) (seed : Seed)
    → text_eq g f ≡ false
    → ShowsIn f c seed
    → ShowsIn f c (replace_field g v seed)
unfolding replace_field
replace_other-ShowsIn f c g v seed n s = elim (Bool-cases (has_field g seed.secrets)) [
  | inl e ↦ rw e (elim s [
    | inl (h, k) ↦
        inl (has_field-replace f g v seed.secrets ∙ h, replace_other-Shows f c g v seed.secrets n k)
    | inr (h, m, k) ↦ inr (has_field-replace f g v seed.secrets ∙ h, m, k)
  ])
  | inr e ↦ rw e (elim s [
    | inl r ↦ inl r
    | inr (h, m, k) ↦
        inr
          (h, has_field-replace f g v seed.values ∙ m, replace_other-Shows f c g v seed.values n k)
  ])
]

-- what a replacement does not change
abbrev SameFields : Text → Seed → Seed → Type 0
SameFields f seed new =
    (has_field f new.secrets ≡ has_field f seed.secrets)
    × (has_field f new.values ≡ has_field f seed.values)
    × (times f new ≡ times f seed)

replace_field-SameFields : (f g v : Text) (seed : Seed) → SameFields f seed (replace_field g v seed)
unfolding replace_field
replace_field-SameFields f g v seed =
    let s = has_field-replace f g v seed.secrets in
    let t = has_field-replace f g v seed.values in
    let m = occurrences-replace f g v seed.secrets in
    let n = occurrences-replace f g v seed.values in
    elim (Bool-cases (has_field g seed.secrets)) [
      | inl e ↦ rw e (s, refl, rw (s, m) refl)
      | inr e ↦ rw e (refl, t, rw n refl)
    ]

replace_fields-SameFields :
    (f : Text) (es : List (Text × Text)) (seed : Seed) → SameFields f seed (replace_fields es seed)
unfolding replace_fields
replace_fields-SameFields f [] seed = (refl, refl, refl)
replace_fields-SameFields f ((g, v) ∷ es) seed =
    let (a, b, c) = replace_field-SameFields f g v seed in
    let (a', b', c') = replace_fields-SameFields f es (replace_field g v seed) in
    (a' ∙ a, b' ∙ b, c' ∙ c)

SameFields-Present :
    (f : Text) (seed new : Seed) → SameFields f seed new → Present f seed → Present f new
SameFields-Present f seed new (a, b, c) h = rw (a, b) h

-- A field with its text, and with what the text is encrypted to.
pub record Entry : Type 0 where
  pub field : Text
  pub plain : Text
  pub cipher : Text

unfoldable pub names : List Entry → List Text
names [] = []
names (e ∷ es) = e.field ∷ names es

unfoldable pub encrypted_map : List Entry → List (Text × Text)
encrypted_map [] = []
encrypted_map (e ∷ es) = (e.field, e.cipher) ∷ encrypted_map es

-- no field is named twice, as it is for the keys of a map
abbrev pub Distinct : List Entry → Type 0
Distinct [] = Unit
Distinct (e ∷ es) = All (λ (d : Entry). text_eq d.field e.field ≡ false) es × Distinct es

-- the lines of each field, once for each section that it is read from
unfoldable pub plain_lines : List Entry → Seed → List Text
plain_lines [] seed = []
plain_lines (e ∷ es) seed =
    replicate (times e.field seed) (field_line e.field e.plain) ++ plain_lines es seed

replace_fields-other :
    (f c : Text) (es : List Entry) (seed : Seed)
    → All (λ (d : Entry). text_eq d.field f ≡ false) es
    → ShowsIn f c seed
    → ShowsIn f c (replace_fields (encrypted_map es) seed)
unfolding replace_fields encrypted_map
replace_fields-other f c [] seed n h = h
replace_fields-other f c (e ∷ es) seed (n, ns) h =
    replace_fields-other f c es (replace_field e.field e.cipher seed) ns
      (replace_other-ShowsIn f c e.field e.cipher seed n h)

abbrev IsPresent : Seed → Entry → Type 0
IsPresent seed e = Present e.field seed

replace_field-Present :
    (g v : Text) (es : List Entry) (seed : Seed)
    → All (IsPresent seed) es
    → All (IsPresent (replace_field g v seed)) es
replace_field-Present g v [] seed h = tt
replace_field-Present g v (e ∷ es) seed (h, hs) =
    let same = replace_field-SameFields e.field g v seed in
    (
      SameFields-Present e.field seed (replace_field g v seed) same h,
      replace_field-Present g v es seed hs,
    )

replace_fields-Present :
    (fields : List (Text × Text)) (es : List Entry) (seed : Seed)
    → All (IsPresent seed) es
    → All (IsPresent (replace_fields fields seed)) es
unfolding replace_fields
replace_fields-Present [] es seed h = h
replace_fields-Present ((g, v) ∷ fields) es seed h =
    replace_fields-Present fields es (replace_field g v seed) (replace_field-Present g v es seed h)

replace_fields-ShowsIn :
    (es : List Entry) (seed : Seed)
    → Distinct es
    → All (IsPresent seed) es
    → All (λ (e : Entry). ShowsIn e.field e.cipher (replace_fields (encrypted_map es) seed)) es
unfolding replace_fields encrypted_map
replace_fields-ShowsIn [] seed d h = tt
replace_fields-ShowsIn (e ∷ es) seed (d, ds) (h, hs) =
    let next = replace_field e.field e.cipher seed in
    (
      replace_fields-other e.field e.cipher es next d
          (replace_field-ShowsIn e.field e.cipher seed h),
      replace_fields-ShowsIn es next ds (replace_field-Present e.field e.cipher es seed hs),
    )

field_reader-ShowsIn :
    (decrypt : Text → Option Text) (es : List Entry) (seed : Seed)
    → All (λ (e : Entry). decrypt e.cipher ≡ some e.plain) es
    → All (λ (e : Entry). ShowsIn e.field e.cipher seed) es
    → field_reader decrypt (names es) seed ≡ printed (plain_lines es seed)
unfolding field_reader names plain_lines
field_reader-ShowsIn decrypt [] seed d h = refl
field_reader-ShowsIn decrypt (e ∷ es) seed (d, ds) (h, hs) =
    let first = read_field-ShowsIn decrypt e.field e.cipher e.plain seed d h in
    let rest = field_reader-ShowsIn decrypt es seed ds hs in rw (first, rest) refl

plain_lines-same :
    (es : List Entry) (seed new : Seed)
    → ((f : Text) → times f new ≡ times f seed)
    → plain_lines es new ≡ plain_lines es seed
unfolding plain_lines
plain_lines-same [] seed new h = refl
plain_lines-same (e ∷ es) seed new h =
    let first = h e.field in let rest = plain_lines-same es seed new h in rw (first, rest) refl

-- After encrypted fields have been put into a seed file that has them, the reader prints their
-- plain texts without an error, each once for every section that the field is read from, whatever
-- fields in plain text have been put into the file before; the entries name no field twice, and
-- each is decrypted to its plain text.
pub field_reader-field_replacer :
    (decrypt : Text → Option Text) (fields : List (Text × Text)) (es : List Entry) (seed : Seed)
    → Distinct es
    → All (λ (e : Entry). Present e.field seed) es
    → All (λ (e : Entry). decrypt e.cipher ≡ some e.plain) es
    → field_reader decrypt (names es) (field_replacer fields (encrypted_map es) seed)
      ≡ printed (plain_lines es seed)
unfolding field_replacer
field_reader-field_replacer decrypt fields es seed n h d =
    let start = replace_fields fields seed in
    let final = replace_fields (encrypted_map es) start in
    let shown = replace_fields-ShowsIn es start n (replace_fields-Present fields es seed h) in
    field_reader-ShowsIn decrypt es final d shown
    ∙ ap printed (
        plain_lines-same es start final
          (λ f. (replace_fields-SameFields f (encrypted_map es) start).2))
    ∙ ap printed (plain_lines-same es seed start (λ f. (replace_fields-SameFields f fields seed).2))
