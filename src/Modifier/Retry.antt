-- ===== src/Modifier/Retry.antt =====
-- The loop around a request to the vault: after an end of file or a timeout the request is made
-- again, three times at most.
use tierceron.Base.{
  ℕ, zero, suc, ◌+◌, ◌<◌, ◌≤◌, ◌≡◌, ◌⊎◌, refl, Bool, true, false, Option, none, some, List, [], ◌∷◌,
  ◌++◌, arith, if◌then◌else◌, inl, inr, Bool-cases, ◌==◌,
}
use tierceron.GoStrings.{Text, codes}
use tierceron.GoNumbers.{format_uint}
use tierceron.Modifier.Vault.{Error, eof, timeout, failure, Reply, Request, Vault}

-- whether an error is one after which the request is made again
abbrev pub retryable : Option Error → Bool
retryable none = false
retryable (some eof) = true
retryable (some timeout) = true
retryable (some (failure s)) = false

-- The last reply, and how many retries there were.
abbrev pub Asked : Type 0
Asked = Reply × ℕ

-- the loop with `left` retries left, after `retries` of them
unfoldable pub retry_from : Vault → Request → ℕ → ℕ → Asked
retry_from vault request zero retries = (vault retries request, retries)
retry_from vault request (suc left) retries =
    let again = retry_from vault request left (suc retries) in
    if retryable (vault retries request).err then again else (vault retries request, retries)

unfoldable pub retry : Vault → Request → Asked
unfolding retry_from
retry vault request = retry_from vault request 3 0

-- the line that is logged where the last reply is an error
abbrev pub notice : Text → Option Error → ℕ → List Text
notice who none retries = []
notice who (some err) retries =
    (who ++ (codes " failing after " ++ (format_uint retries ++ codes " retries.\n"))) ∷ []

-- The loop stops at the first reply that is not to be tried again, or at the last retry.
abbrev Stopped : Vault → Request → ℕ → ℕ → Asked → Type 0
Stopped vault request left retries (reply, n) =
    (reply ≡ vault n request)
    × (retries ≤ n)
    × (n ≤ retries + left)
    × ((n ≡ retries + left) ⊎ (retryable (vault n request).err ≡ false))
    × ((i : ℕ) → retries ≤ i → i < n → retryable (vault i request).err ≡ true)

earlier-step :
    (vault : Vault) (request : Request) (retries n i : ℕ)
    → retryable (vault retries request).err ≡ true
    → ((j : ℕ) → suc retries ≤ j → j < n → retryable (vault j request).err ≡ true)
    → retries ≤ i
    → i < n
    → retryable (vault i request).err ≡ true
earlier-step vault request retries n i h k l q = elim (Bool-cases (i == retries)) [
  | inl e ↦ let same : i ≡ retries = ground (arith, e) in rw same h
  | inr e ↦ k i (ground arith) q
]

Stopped-step :
    (vault : Vault) (request : Request) (left retries : ℕ) (b : Bool) (again : Asked)
    → retryable (vault retries request).err ≡ b
    → Stopped vault request left (suc retries) again
    → Stopped vault request
        (suc left)
        retries
        (if b then again else (vault retries request, retries))
Stopped-step vault request left retries false again h k =
    (refl, omega arith, omega arith, inr h, λ i l n. absurd (omega arith))
Stopped-step vault request left retries true (reply, n) h (a, b, c, inl d, e) = (
  a,
  omega arith,
  omega arith,
  inl (omega arith),
  λ i l q. earlier-step vault request retries n i h e l q,
)
Stopped-step vault request left retries true (reply, n) h (a, b, c, inr d, e) =
    (a, omega arith, omega arith, inr d, λ i l q. earlier-step vault request retries n i h e l q)

retry_from-Stopped :
    (vault : Vault) (request : Request) (left retries : ℕ)
    → Stopped vault request left retries (retry_from vault request left retries)
unfolding retry_from
retry_from-Stopped vault request zero retries =
    (refl, omega arith, omega arith, inl (omega arith), λ i h k. absurd (omega arith))
retry_from-Stopped vault request (suc left) retries =
    Stopped-step vault request left retries (retryable (vault retries request).err)
      (retry_from vault request left (suc retries)) refl
      (retry_from-Stopped vault request left (suc retries))

-- The first `n` requests all end with an end of file or a timeout.
abbrev pub AllRetried : Vault → Request → ℕ → Type 0
AllRetried vault request zero = Unit
AllRetried vault request (suc n) =
    AllRetried vault request n × (retryable (vault n request).err ≡ true)

AllRetried-below :
    (vault : Vault) (request : Request) (n : ℕ)
    → ((i : ℕ) → i < n → retryable (vault i request).err ≡ true)
    → AllRetried vault request n
AllRetried-below vault request zero h = tt
AllRetried-below vault request (suc n) h =
    (AllRetried-below vault request n (λ i k. h i (omega arith)), h n (omega arith))

-- The loop makes at most four requests: its reply is that of the first request that does not end
-- with an end of file or a timeout, or that of the fourth request where the first three do.
pub retry_lem :
    (vault : Vault) (request : Request)
    → let n = (retry vault request).1 in
      ((retry vault request).0 ≡ vault n request)
      × (n ≤ 3)
      × ((n ≡ 3) ⊎ (retryable (vault n request).err ≡ false))
      × AllRetried vault request n
unfolding retry
retry_lem vault request =
    let (a, b, c, d, e) = retry_from-Stopped vault request 3 0 in
    (
      a,
      c,
      d,
      AllRetried-below vault request (retry_from vault request 3 0).1 (λ i h. e i (omega arith) h),
    )
