-- ===== src/Capauth/Examples.antt =====
-- An agent that answers the third query, and hosts that are let pass.
use tierceron.Base.{ℕ, zero, suc, ◌≡◌, ◌≤◌, refl, none, some, [], ◌∷◌}
use tierceron.GoStrings.{codes, text_eq, has_prefix}
use tierceron.Capauth.{
  Reply, secret, failed, query_from, retrying_pense_feather_query, validate_vhost,
  validate_vhost_inverse, check_endpoints, endpoint_accepts,
}
use tierceron.Capauth.Attempts.{FirstGood, retrying_pense_feather_query-FirstGood}

abbrev slow_agent : ℕ → Reply
slow_agent zero = failed
slow_agent (suc zero) = secret (codes "....")
slow_agent (suc (suc n)) = secret (codes "key")

answered : retrying_pense_feather_query slow_agent ≡ (some (codes "key"), 3)
unfolding retrying_pense_feather_query query_from text_eq
answered = refl

retrying_pense_feather_query-FirstGood_example :
    ((retrying_pense_feather_query slow_agent).1 ≤ 5)
    × FirstGood slow_agent 5 0 (retrying_pense_feather_query slow_agent)
retrying_pense_feather_query-FirstGood_example = retrying_pense_feather_query-FirstGood slow_agent

-- A host that is only the beginning of an endpoint is let pass.
beginning_passes :
    validate_vhost (codes "https://vault.example.org" ∷ []) (codes "https://v") (codes "https://")
    ≡ none
unfolding validate_vhost validate_vhost_inverse check_endpoints endpoint_accepts has_prefix
beginning_passes = refl
