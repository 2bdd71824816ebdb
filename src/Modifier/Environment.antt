-- ===== src/Modifier/Environment.antt =====
-- `PreCheckEnvironment` and `ValidateEnvironment`: the parts of an environment's name, and whether
-- a token holds the policy of an environment.
pub mod Granted
use tierceron.Base.{
  ℕ, ◌+◌, Bool, true, false, not, ◌&&◌, ◌||◌, List, [], ◌∷◌, ◌++◌, length, map, ltb, ◌==◌,
  if◌then◌else◌,
}
use tierceron.GoStrings.{Text, codes, text_eq, is_empty, contains, split}
use tierceron.GoNumbers.{atoi}

-- The results of `PreCheckEnvironment`, or the error of `Atoi`.
pub data PreCheck : Type 0 where
  checked : Text → Text → Bool → PreCheck
  refused : PreCheck

-- the test of the part behind the dot
unfoldable pub check_part : Text → Text → PreCheck
unfolding text_eq atoi
check_part env part =
    let number = (atoi part).1 in
    if not (text_eq part (codes "*")) && not number
    then if length part == 3 then checked env part true else refused
    else checked env part false

abbrev pub check_parts : Text → List Text → PreCheck
check_parts environment (env ∷ part ∷ []) = check_part env part
check_parts environment (env ∷ part ∷ file ∷ []) = checked env part true
check_parts environment _ = checked environment [] false

-- `PreCheckEnvironment`
unfoldable pub pre_check_environment : Text → PreCheck
unfolding split
pre_check_environment environment = check_parts environment (split environment (codes "."))

-- `strings.ToLower`, for the names of policies and environments, which are ASCII
unfoldable pub to_lower : Text → Text
to_lower s = map (λ c. if ltb 64 c && ltb c 91 then c + 32 else c) s

-- What `LookupSelf` answers: the token's policies, or an error with whether that is a failed
-- verification of a certificate.
pub data Lookup : Type 0 where
  policies : List Text → Lookup
  failed : Bool → Lookup

-- The results of `ValidateEnvironment`: whether the token is valid, the policy that it needs, and
-- whether an error is returned.
pub record Validation : Type 0 where
  pub valid : Bool
  pub policy : Text
  pub failure : Bool

-- the loop over the policies
unfoldable pub any_policy : Text → List Text → Bool
unfolding text_eq to_lower
any_policy desired [] = false
any_policy desired (policy ∷ rest) =
    text_eq policy (codes "root") || (text_eq (to_lower policy) desired || any_policy desired rest)

-- `desiredPolicy`
unfoldable pub desired_policy : Text → Bool → Text → Text
unfolding contains to_lower
desired_policy environment init suffix =
    let name = if contains environment (codes "local") then codes "local" else environment in
    if init
    then codes "vault_pub_" ++ to_lower name
    else codes "config_" ++ (to_lower name ++ suffix)

abbrev pub validation : Text → Lookup → Validation
validation desired (policies ps) = record {
  valid = any_policy desired ps;
  policy = desired;
  failure = false;
}
validation desired (failed certificate) = record {
  valid = false;
  policy = desired;
  failure = certificate;
}

abbrev pub validate_checked : Text → Bool → Text → Lookup → PreCheck → Validation
validate_checked environment init suffix lookup refused = record {
  valid = false;
  policy = [];
  failure = true;
}
validate_checked environment init suffix lookup (checked env sub path) =
    let name = if is_empty sub then environment else env in
    validation (desired_policy name init suffix) lookup

-- `ValidateEnvironment`
unfoldable pub validate_environment : Text → Bool → Text → Lookup → Validation
unfolding pre_check_environment any_policy desired_policy
validate_environment environment init suffix lookup =
    validate_checked environment init suffix lookup (pre_check_environment environment)
