-- ===== src/Modifier/Environment/Granted.antt =====
-- When an environment's name is refused, and when a token is good for an environment.
use tierceron.Base.{
  ◌≡◌, ◌≢◌, ◌⊎◌, ◌↔◌, refl, Bool, true, false, List, [], ◌∷◌, length, arith, All, inl, inr,
  Bool-cases, if◌then◌else◌, ◌||◌,
}
use tierceron.GoStrings.{Text, codes, text_eq, is_empty, join}
use tierceron.GoStrings.Equality.{mem_text, text_eq_iff, text_eq_refl}
use tierceron.GoStrings.Search.{Lacks}
use tierceron.GoStrings.Split.{split-join}
use tierceron.GoNumbers.{atoi}
use tierceron.Modifier.Environment.{
  PreCheck, checked, refused, check_part, check_parts, pre_check_environment, to_lower, Lookup,
  policies, failed, any_policy, validate_environment, validate_checked, validation, desired_policy,
}

-- a policy that the token holds and that is root or the policy that is asked for
abbrev pub Grant : Text → List Text → Type 0
Grant desired ps =
    (p : Text) × (mem_text p ps ≡ true) × ((p ≡ codes "root") ⊎ (to_lower p ≡ desired))

Grant-cons : (desired q : Text) (ps : List Text) → Grant desired ps → Grant desired (q ∷ ps)
unfolding mem_text
Grant-cons desired q ps (p, m, g) = (p, ground (arith, m), g)

any_policy-Grant :
    (desired : Text) (ps : List Text) → any_policy desired ps ≡ true → Grant desired ps
unfolding any_policy mem_text
any_policy-Grant desired [] h = cc
any_policy-Grant desired (q ∷ ps) h = elim (Bool-cases (text_eq q (codes "root"))) [
  | inl e ↦ (q, ground (arith, text_eq_refl q), inl ((text_eq_iff q (codes "root")).0 e))
  | inr e ↦ elim (Bool-cases (text_eq (to_lower q) desired)) [
    | inl d ↦ (q, ground (arith, text_eq_refl q), inr ((text_eq_iff (to_lower q) desired).0 d))
    | inr d ↦ Grant-cons desired q ps (any_policy-Grant desired ps (ground arith))
  ]
]

granted :
    (desired p : Text)
    → (p ≡ codes "root") ⊎ (to_lower p ≡ desired)
    → (text_eq p (codes "root") || text_eq (to_lower p) desired) ≡ true
granted desired p (inl e) = ground (arith, e, text_eq_refl (codes "root"))
granted desired p (inr e) = ground (arith, e, text_eq_refl desired)

Grant-any_policy :
    (desired : Text) (ps : List Text) → Grant desired ps → any_policy desired ps ≡ true
unfolding any_policy mem_text
Grant-any_policy desired [] (p, m, g) = cc
Grant-any_policy desired (q ∷ ps) (p, m, g) = elim (Bool-cases (text_eq p q)) [
  | inl e ↦ let same : p ≡ q = (text_eq_iff p q).0 e in ground (arith, same, granted desired p g)
  | inr e ↦
      let rest = Grant-any_policy desired ps (p, ground (arith, m, e), g) in ground (arith, rest)
]

validation-Grant :
    (desired : Text) (lookup : Lookup)
    → ((validation desired lookup).valid ≡ true)
      ↔ ((ps : List Text) × (lookup ≡ policies ps) × Grant (validation desired lookup).policy ps)
validation-Grant desired (policies ps) = (
  λ h. (ps, refl, any_policy-Grant desired ps h),
  λ (qs, e, g). Grant-any_policy desired ps (ground (arith, e, g)),
)
validation-Grant desired (failed c) = (λ h. cc, λ (qs, e, g). cc)

validate_checked-Grant :
    (environment : Text) (init : Bool) (suffix : Text) (lookup : Lookup) (c : PreCheck)
    → let v = validate_checked environment init suffix lookup c in
      (v.valid ≡ true)
      ↔ ((c ≢ refused) × ((ps : List Text) × (lookup ≡ policies ps) × Grant v.policy ps))
validate_checked-Grant environment init suffix lookup refused = (λ h. cc, λ (n, g). absurd (n refl))
validate_checked-Grant environment init suffix lookup (checked env sub path) =
    let desired = desired_policy (if is_empty sub then environment else env) init suffix in
    let (f, g) = validation-Grant desired lookup in (λ h. (λ e. cc, f h), λ (n, k). g k)

-- A token is valid for an environment exactly if the environment's name is not refused, the token
-- can be looked up, and one of its policies is root or is, in small letters, the policy that is
-- returned.
pub validate_environment-Grant :
    (environment : Text) (init : Bool) (suffix : Text) (lookup : Lookup)
    → let v = validate_environment environment init suffix lookup in
      (v.valid ≡ true) ↔ (
        (pre_check_environment environment ≢ refused)
        × ((ps : List Text) × (lookup ≡ policies ps) × Grant v.policy ps))
unfolding validate_environment
validate_environment-Grant environment init suffix lookup =
    validate_checked-Grant environment init suffix lookup (pre_check_environment environment)

-- the parts of a name of which the second one is no version and no region
abbrev pub Malformed : List Text → Type 0
Malformed ps =
    (env : Text) × (part : Text) × (ps ≡ env ∷ part ∷ [])
    × (part ≢ codes "*")
    × ((atoi part).1 ≡ false)
    × (length part ≢ 3)

check_part-refused :
    (env part : Text)
    → (check_part env part ≡ refused)
      ↔ ((part ≢ codes "*") × ((atoi part).1 ≡ false) × (length part ≢ 3))
unfolding check_part
check_part-refused env part = ground (arith, text_eq_iff part (codes "*"))

check_parts-Malformed :
    (environment : Text) (ps : List Text) → (check_parts environment ps ≡ refused) ↔ Malformed ps
check_parts-Malformed environment [] = (λ h. cc, λ (a, b, e, s, n, l). cc)
check_parts-Malformed environment (p ∷ []) = (λ h. cc, λ (a, b, e, s, n, l). cc)
check_parts-Malformed environment (p ∷ q ∷ []) =
    let (f, g) = check_part-refused p q in
    (
      λ h. let (s, n, l) = f h in (p, q, refl, s, n, l),
      λ (a, b, e, s, n, l). let same : q ≡ b = ground (arith, e) in g (rw same (s, n, l)),
    )
check_parts-Malformed environment (p ∷ q ∷ r ∷ []) = (λ h. cc, λ (a, b, e, s, n, l). cc)
check_parts-Malformed environment (p ∷ q ∷ r ∷ t ∷ ps) = (λ h. cc, λ (a, b, e, s, n, l). cc)

-- The name of an environment that is spelled by parts without dots is refused exactly if it has
-- two parts of which the second is not a star, not a number and not three bytes long.
pre_check_environment-Malformed :
    (ps : List Text)
    → ps ≢ []
    → All (Lacks b'.') ps
    → (pre_check_environment (join ps (codes ".")) ≡ refused) ↔ Malformed ps
unfolding pre_check_environment
pre_check_environment-Malformed ps h k =
    rw (split-join b'.' ps h k) (check_parts-Malformed (join ps (codes ".")) ps)
