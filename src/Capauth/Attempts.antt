-- ===== src/Capauth/Attempts.antt =====
-- The attempts of a query to the agent.
use tierceron.Base.{
  ℕ, zero, suc, ◌+◌, ◌<◌, ◌≤◌, ◌≡◌, ◌⊎◌, inl, inr, refl, Option, none, some, arith, Option-cases,
}
use tierceron.GoStrings.{Text}
use tierceron.Capauth.{Reply, good, query_from, retrying_pense_feather_query}

-- What the attempts from `n` on come to, `left` at most: the first good reply, with the queries up
-- to it, or all of them without a good reply.
abbrev pub FirstGood : (ℕ → Reply) → ℕ → ℕ → Option Text × ℕ → Type 0
FirstGood agent left n (none, m) =
    (m ≡ n + left) × ((k : ℕ) → n ≤ k → k < n + left → good (agent k) ≡ none)
FirstGood agent left n (some s, m) =
    (i : ℕ) × (n ≤ i)
    × (i < n + left)
    × (m ≡ suc i)
    × (good (agent i) ≡ some s)
    × ((k : ℕ) → n ≤ k → k < i → good (agent k) ≡ none)

start_or_later : (n k : ℕ) → n ≤ k → (k ≡ n) ⊎ (suc n ≤ k)
start_or_later n k h = omega arith

passed :
    (agent : ℕ → Reply) (n k : ℕ) (end : ℕ)
    → good (agent n) ≡ none
    → ((j : ℕ) → suc n ≤ j → j < end → good (agent j) ≡ none)
    → n ≤ k
    → k < end
    → good (agent k) ≡ none
passed agent n k end h later l m = elim (start_or_later n k l) [ inl e ↦ cc | inr g ↦ later k g m ]

later-FirstGood :
    (agent : ℕ → Reply) (left n : ℕ) (r : Option Text × ℕ)
    → good (agent n) ≡ none
    → FirstGood agent left (suc n) r
    → FirstGood agent (suc left) n r
later-FirstGood agent left n (none, m) h (e, k) =
    (omega arith, (λ j l u. passed agent n j (suc n + left) h k l (omega arith)))
later-FirstGood agent left n (some s, m) h (i, a, b, c, d, k) =
    (i, omega arith, omega arith, c, d, (λ j l u. passed agent n j i h k l u))

query_from-FirstGood :
    (agent : ℕ → Reply) (left n : ℕ) → FirstGood agent left n (query_from agent left n)
unfolding query_from
query_from-FirstGood agent zero n = (omega arith, (λ k l m. absurd (omega arith)))
query_from-FirstGood agent (suc left) n = elim (Option-cases (good (agent n))) [
  | inl e ↦ rw e (
      later-FirstGood agent left n (query_from agent left (suc n)) e
        (query_from-FirstGood agent left (suc n)))
  | inr (s, e) ↦ rw e (n, omega arith, omega arith, refl, e, (λ k l m. absurd (omega arith)))
]

FirstGood-bound :
    (agent : ℕ → Reply) (left n : ℕ) (r : Option Text × ℕ)
    → FirstGood agent left n r
    → r.1 ≤ n + left
FirstGood-bound agent left n (none, m) (e, k) = omega arith
FirstGood-bound agent left n (some s, m) (i, a, b, c, d, k) = omega arith

-- The agent is asked at most five times, and not again after a good reply: the secret that is
-- returned is that of the first good reply, and an error means that five replies were not good.
pub retrying_pense_feather_query-FirstGood :
    (agent : ℕ → Reply)
    → ((retrying_pense_feather_query agent).1 ≤ 5)
      × FirstGood agent 5 0 (retrying_pense_feather_query agent)
unfolding retrying_pense_feather_query
retrying_pense_feather_query-FirstGood agent =
    let h = query_from-FirstGood agent 5 0 in
    (FirstGood-bound agent 5 0 (query_from agent 5 0) h, h)
