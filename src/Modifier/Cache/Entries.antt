-- ===== src/Modifier/Cache/Entries.antt =====
-- The entries of the cache: lookups, updates and the counts.
use tierceron.Base.{
  ℕ, zero, suc, ◌-◌, ◌≤◌, ◌<◌, ◌≡◌, true, false, some, List, [], ◌∷◌, arith, length, Bool-cases,
  inl, inr, if◌then◌else◌,
}
use tierceron.GoStrings.{Text, text_eq}
use tierceron.Modifier.{Modifier}
use tierceron.Modifier.Cache.{Entry, Entries, find, update, increment, decrement, drain, cleaned}

-- An entry whose count is the number of modifiers in its channel, which are eleven at most.
abbrev pub IsSoundEntry : Entry → Type 0
IsSoundEntry e = (e.count ≡ length e.channel) × (e.count ≤ 11)

abbrev pub IsSound : Entries → Type 0
IsSound [] = Unit
IsSound ((k, e) ∷ c) = IsSoundEntry e × IsSound c

pub find-IsSound :
    (key : Text) (c : Entries) (e : Entry) → IsSound c → find key c ≡ some e → IsSoundEntry e
unfolding find
find-IsSound key [] e h q = cc
find-IsSound key ((k, f) ∷ c) e (a, h) q = elim (Bool-cases (text_eq k key)) [
  | inl b ↦ let same : f ≡ e = ground (arith, b, q) in rw⁻¹ same a
  | inr b ↦ find-IsSound key c e h (ground (arith, b, q))
]

pub update-IsSound :
    (key : Text) (c : Entries) (e : Entry) → IsSound c → IsSoundEntry e → IsSound (update key e c)
unfolding update
update-IsSound key [] e h q = tt
update-IsSound key ((k, f) ∷ c) e (a, h) q =
    elim (text_eq k key) as (λ b. IsSound (if b then (k, e) ∷ c else (k, f) ∷ update key e c)) [
      | true ↦ (q, h)
      | false ↦ (a, update-IsSound key c e h q)
    ]

pub find-update :
    (key : Text) (c : Entries) (e f : Entry)
    → find key c ≡ some e
    → find key (update key f c) ≡ some f
unfolding find update
find-update key [] e f h = cc
find-update key ((k, g) ∷ c) e f h = ground (arith, find-update key c e f)

pub decrement-suc : (n : ℕ) → n ≤ 20 → decrement (suc n) ≡ n
decrement-suc n h = omega arith

pub increment-small : (n : ℕ) → n ≤ 20 → increment n ≡ suc n
increment-small n h = omega arith

-- the loop keeps the count right, and takes out as many modifiers as there are, up to the limit
pub drain-count :
    (limit n : ℕ) (ms : List Modifier)
    → n ≡ length ms
    → n ≤ 20
    → ((drain limit n ms).count ≡ length (drain limit n ms).channel)
      × ((drain limit n ms).count ≡ n - limit)
unfolding drain
drain-count zero n ms h k = (h, omega arith)
drain-count (suc limit) n [] h k = (h, omega arith)
drain-count (suc limit) zero (m ∷ ms) h k = cc
drain-count (suc limit) (suc n) (m ∷ ms) h k =
    let small : n ≤ 20 = omega arith in
    let (a, b) = drain-count limit n ms (omega arith) small in
    rw (drain, decrement-suc n small) (a, omega arith)

pub cleaned-IsSoundEntry : (limit : ℕ) (e : Entry) → IsSoundEntry e → IsSoundEntry (cleaned limit e)
cleaned-IsSoundEntry limit e (a, h) = ground (arith, drain-count limit e.count e.channel a)

-- an entry that is full gives ten modifiers away
pub cleaned-count : (e : Entry) → IsSoundEntry e → 10 < e.count → (cleaned 10 e).count ≤ 1
cleaned-count e (a, h) k = ground (arith, drain-count 10 e.count e.channel a)
