-- ===== src/Capauth.antt =====
-- pkg/capauth/agentconfig.go: the checks of hosts against the endpoints and the domains that a build
-- supports, which are parameters, and the retries of a query to the agent.
pub mod Attempts
mod Examples
use tierceron.Base.{
  ℕ, zero, suc, Bool, true, false, not, ◌&&◌, Option, none, some, List, [], ◌∷◌, ◌++◌,
  if◌then◌else◌,
}
use tierceron.GoStrings.{Text, codes, text_eq, is_empty, has_prefix, has_suffix, contains}

abbrev https : Text
https = codes "https://"

abbrev with_https : Text → Text
with_https host = if has_prefix host https then host else https ++ host

abbrev pub bad_host : Text → Option Text
bad_host host = some (codes "Bad host: " ++ host)

-- `ValidateVhostDomain`; `none` is no error.
unfoldable pub validate_vhost_domain : List Text → Text → Option Text
validate_vhost_domain [] host = bad_host host
validate_vhost_domain (domain ∷ domains) host =
    let rest = validate_vhost_domain domains host in if has_suffix host domain then none else rest

-- whether an endpoint lets a host pass
unfoldable pub endpoint_accepts : Text → Bool → Text → Text → Bool
endpoint_accepts protocol inverse host endpoint =
    let within =
      if not (is_empty protocol) && contains (protocol ++ endpoint) host
      then true
      else contains endpoint host in
    if inverse then within else has_prefix (with_https endpoint) (with_https host)

unfoldable pub check_endpoints : List Text → Text → Bool → Text → Option Text
check_endpoints [] protocol inverse host = bad_host host
check_endpoints (endpoint ∷ endpoints) protocol inverse host =
    let rest = check_endpoints endpoints protocol inverse host in
    if endpoint_accepts protocol inverse host endpoint then none else rest

-- `ValidateVhostInverse`
unfoldable pub validate_vhost_inverse : List Text → Text → Text → Bool → Option Text
validate_vhost_inverse endpoints host protocol inverse =
    if has_prefix host protocol
    then check_endpoints endpoints protocol inverse host
    else some (codes "missing required protocol: " ++ protocol)

-- `ValidateVhost`
unfoldable pub validate_vhost : List Text → Text → Text → Option Text
validate_vhost endpoints host protocol = validate_vhost_inverse endpoints host protocol false

-- What a query of the agent gives: a secret, no secret, or an error.
pub data Reply : Type 0 where
  secret : Text → Reply
  nothing : Reply
  failed : Reply

-- whether a reply is taken
abbrev pub good : Reply → Option Text
good (secret s) = if text_eq s (codes "....") then none else some s
good nothing = none
good failed = none

abbrev or_retry : Option Text → ℕ → Option Text × ℕ → Option Text × ℕ
or_retry none n later = later
or_retry (some s) n later = (some s, suc n)

-- The loop with `left` attempts left, after `n` queries: the secret, or `none` for an error, and the
-- number of queries. The agent is a parameter, a function from the number of queries so far.
unfoldable pub query_from : (ℕ → Reply) → ℕ → ℕ → Option Text × ℕ
query_from agent zero n = (none, n)
query_from agent (suc left) n = or_retry (good (agent n)) n (query_from agent left (suc n))

-- `RetryingPenseFeatherQuery`
unfoldable pub retrying_pense_feather_query : (ℕ → Reply) → Option Text × ℕ
retrying_pense_feather_query agent = query_from agent 5 0
