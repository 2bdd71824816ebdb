-- ===== src/SeedSections/Merged.antt =====
-- An entry of a nested section stays when other sections are merged into it.
use tierceron.Base.{
  ◌≡◌, refl, sym, ap, ◌∙◌, false, none, some, List, [], ◌∷◌, Bool-cases, Option-cases, inl, inr,
  arith,
}
use tierceron.GoStrings.{Text, text_eq}
use tierceron.GoStrings.Equality.{text_eq_iff, text_eq_refl}
use tierceron.SeedSections.Merge.{merge_maps, combine_templates}
use tierceron.SeedSections.Structure.{
  Section, leaf, branch, Branches, no_branch, child, section_at, put_section, branches_of, entry_at,
}
use mathlib.Core.Path.{subst}

section_at-put_section :
    (name : Text) (s : Section) (b : Branches) → section_at name (put_section name s b) ≡ some s
unfolding section_at put_section
section_at-put_section name s no_branch = ground (arith, text_eq_refl name)
section_at-put_section name s (child k t rest) = ground (arith, section_at-put_section name s rest)

section_at-put_section_other :
    (k name : Text) (s : Section) (b : Branches)
    → text_eq k name ≡ false
    → section_at name (put_section k s b) ≡ section_at name b
unfolding section_at put_section
section_at-put_section_other k name s no_branch h = ground (arith, h)
section_at-put_section_other k name s (child j t rest) h = elim (Bool-cases (text_eq j k)) [
  | inl e ↦
      let same : j ≡ k = (text_eq_iff j k).0 e in
      let differs : text_eq j name ≡ false = ap (λ x. text_eq x name) same ∙ h in
      ground (arith, e, differs)
  | inr e ↦ ground (arith, e, section_at-put_section_other k name s rest h)
]

entry_at-none : (path : List Text) (name : Text) → entry_at path name no_branch ≡ none
unfolding entry_at section_at
entry_at-none [] name = refl
entry_at-none (p ∷ ps) name = entry_at-none ps name

-- a key that was missing
put_new :
    (k : Text) (s : Section) (x : Branches) (path : List Text) (name v : Text)
    → section_at k x ≡ none
    → entry_at path name x ≡ some (leaf v)
    → entry_at path name (put_section k s x) ≡ some (leaf v)
unfolding entry_at
put_new k s x [] name v e h = elim (Bool-cases (text_eq k name)) [
  | inl t ↦
      let found : section_at k x ≡ some (leaf v) =
        subst (λ n. section_at n x ≡ some (leaf v)) (sym ((text_eq_iff k name).0 t)) h in
      cc
  | inr t ↦ section_at-put_section_other k name s x t ∙ h
]
put_new k s x (p ∷ ps) name v e h = elim (Bool-cases (text_eq k p)) [
  | inl t ↦
      let same : k ≡ p = (text_eq_iff k p).0 t in
      let gone : section_at p x ≡ none = subst (λ n. section_at n x ≡ none) same e in
      let lost : none ≡ some (leaf v) =
        sym (entry_at-none ps name) ∙ (ap (λ o. entry_at ps name (branches_of o)) (sym gone) ∙ h) in
      cc
  | inr t ↦ ap (λ o. entry_at ps name (branches_of o)) (section_at-put_section_other k p s x t) ∙ h
]

-- a map that has grown
put_grown :
    (k : Text) (b c : Branches) (x : Branches) (path : List Text) (name v : Text)
    → section_at k x ≡ some (branch b)
    → ((q : List Text) → entry_at q name b ≡ some (leaf v) → entry_at q name c ≡ some (leaf v))
    → entry_at path name x ≡ some (leaf v)
    → entry_at path name (put_section k (branch c) x) ≡ some (leaf v)
unfolding entry_at
put_grown k b c x [] name v e g h = elim (Bool-cases (text_eq k name)) [
  | inl t ↦
      let found : section_at k x ≡ some (leaf v) =
        subst (λ n. section_at n x ≡ some (leaf v)) (sym ((text_eq_iff k name).0 t)) h in
      cc
  | inr t ↦ section_at-put_section_other k name (branch c) x t ∙ h
]
put_grown k b c x (p ∷ ps) name v e g h = elim (Bool-cases (text_eq k p)) [
  | inl t ↦
      let same : k ≡ p = (text_eq_iff k p).0 t in
      let old : section_at p x ≡ some (branch b) =
        subst (λ n. section_at n x ≡ some (branch b)) same e in
      let new : section_at p (put_section k (branch c) x) ≡ some (branch c) =
        subst (λ n. section_at n (put_section k (branch c) x) ≡ some (branch c)) same
          (section_at-put_section k (branch c) x) in
      ap (λ o. entry_at ps name (branches_of o)) new
      ∙ g ps (ap (λ o. entry_at ps name (branches_of o)) (sym old) ∙ h)
  | inr t ↦
      ap (λ o. entry_at ps name (branches_of o)) (section_at-put_section_other k p (branch c) x t)
      ∙ h
]

-- An entry of a section is still the same when another section has been merged into it.
entry_at-merge_maps :
    (y x : Branches) (path : List Text) (name v : Text)
    → entry_at path name x ≡ some (leaf v)
    → entry_at path name (merge_maps x y) ≡ some (leaf v)
unfolding merge_maps
entry_at-merge_maps no_branch x path name v h = h
entry_at-merge_maps (child k (leaf t) rest) x path name v h = elim (Option-cases (section_at k x)) [
  | inl e ↦ rw e (
      entry_at-merge_maps rest (put_section k (leaf t) x) path name v
        (put_new k (leaf t) x path name v e h))
  | inr (s, e) ↦ rw e (entry_at-merge_maps rest x path name v h)
]
entry_at-merge_maps (child k (branch below) rest) x path name v h =
    elim (Option-cases (section_at k x)) [
      | inl e ↦ rw e (
          entry_at-merge_maps rest (put_section k (branch below) x) path name v
            (put_new k (branch below) x path name v e h))
      | inr (leaf t, e) ↦ rw e (entry_at-merge_maps rest x path name v h)
      | inr (branch b, e) ↦ rw e (
          entry_at-merge_maps rest (put_section k (branch (merge_maps b below)) x) path name v (
            put_grown k b (merge_maps b below) x path name v e
              (λ q j. entry_at-merge_maps below b q name v j) h))
    ]

-- An entry of the combined section of templates is the same when the sections of any further
-- templates have been combined into it, whatever these have under its path.
pub entry_at-combine_templates :
    (bs : List Branches) (combined : Branches) (path : List Text) (name v : Text)
    → entry_at path name combined ≡ some (leaf v)
    → entry_at path name (combine_templates bs combined) ≡ some (leaf v)
unfolding combine_templates
entry_at-combine_templates [] combined path name v h = h
entry_at-combine_templates (b ∷ bs) combined path name v h =
    entry_at-combine_templates bs (merge_maps combined b) path name v
      (entry_at-merge_maps b combined path name v h)
