-- ===== src/Modifier/Cache/Sound.antt =====
-- The counts of the cache after its operations.
use tierceron.Base.{
  ℕ, ◌≤◌, ◌<◌, ◌≡◌, ◌⊎◌, ap, refl, Bool, true, false, none, some, List, [], ◌∷◌, ◌++◌, arith,
  length, Option-cases, inl, inr, length-append, if◌then◌else◌, ltb,
}
use tierceron.GoStrings.{Text}
use tierceron.GoStrings.Equality.{text_eq_refl}
use tierceron.Modifier.{Modifier}
use tierceron.Modifier.Cache.{
  Entry, Entries, Ended, done, crashed, find, update, cache_key, check_init_mod_cache, increment,
  cleaned, clean_cache_helper, prune_cache, kept_under, clean_cache, send, release, release_helper,
  and_then, cached_modifier_helper, new_modifier, take_first, take_out, decrement,
}
use tierceron.Modifier.Cache.Entries.{
  IsSound, find-IsSound, update-IsSound, find-update, increment-small, decrement-suc,
  cleaned-IsSoundEntry, cleaned-count,
}

-- a call that goes on, with a sound cache
abbrev pub EndsSound : Ended Unit → Type 0
EndsSound o = (c : Entries) × (o ≡ done tt c) × IsSound c

-- there is an entry afterwards: it was there before, in the same cache, or it is empty
check_init_mod_cache_lem :
    (env addr : Text) (c : Entries)
    → IsSound c
    → let c' = check_init_mod_cache env addr c in
      IsSound c'
      × ((e : Entry) × (find (cache_key env addr) c' ≡ some e) × ((c' ≡ c) ⊎ (e.count ≡ 0)))
unfolding check_init_mod_cache find
check_init_mod_cache_lem env addr c h = elim (Option-cases (find (cache_key env addr) c)) [
  | inl e ↦ rw e (
    ((refl, omega arith), h),
    (record { count = 0; channel = [] }, rw (text_eq_refl (cache_key env addr)) refl, inr refl),
  )
  | inr (e, q) ↦ rw q (h, (e, q, inl refl))
]

send-IsSound :
    (key : Text) (m : Modifier) (c : Entries) (e : Entry)
    → IsSound c
    → find key c ≡ some e
    → e.count ≤ 10
    → EndsSound (send key m c)
unfolding send
send-IsSound key m c e h q k =
    let (a, l) = find-IsSound key c e h q in
    let f : Entry = record { count = increment e.count; channel = e.channel ++ m ∷ [] } in
    (
      update key f c,
      rw (send, q) (ground (arith, a)),
      update-IsSound key c f h
          (ground (arith, a, increment-small e.count, length-append e.channel (m ∷ []))),
    )

clean_cache_helper-entry :
    (env addr : Text) (limit : ℕ) (c : Entries) (e : Entry)
    → find (cache_key env addr) c ≡ some e
    → clean_cache_helper env addr limit c
      ≡ done tt (update (cache_key env addr) (cleaned limit e) c)
unfolding clean_cache_helper
clean_cache_helper-entry env addr limit c e q = rw (clean_cache_helper, q) refl

send-cleaned :
    (env : Text) (m : Modifier) (c : Entries) (e : Entry)
    → IsSound c
    → find (cache_key env m.address) c ≡ some e
    → kept_under m c ≡ env
    → 10 < e.count
    → EndsSound (and_then (clean_cache m 10 c) (λ d. send (cache_key env m.address) m d))
unfolding clean_cache
send-cleaned env m c e h q k l =
    let key = cache_key env m.address in
    let s = find-IsSound key c e h q in
    let f = cleaned 10 e in
    rw (k, clean_cache_helper-entry env m.address 10 c e q)
      (send-IsSound key m (update key f c) f
        (update-IsSound key c f h (cleaned-IsSoundEntry 10 e s)) (find-update key c e f q)
        (ground (arith, cleaned-count e s l)))

EndsSound-if :
    (b : Bool) (o p : Ended Unit)
    → (b ≡ true → EndsSound o)
    → (b ≡ false → EndsSound p)
    → EndsSound (if b then o else p)
EndsSound-if true o p h k = h refl
EndsSound-if false o p h k = k refl

release_helper-IsSound :
    (m : Modifier) (c : Entries) → IsSound c → EndsSound (release_helper (kept_under m c) m c)
unfolding release_helper
release_helper-IsSound m c h =
    let env = kept_under m c in
    let key = cache_key env m.address in
    let c' = check_init_mod_cache env m.address c in
    let (s, (e, q, w)) = check_init_mod_cache_lem env m.address c h in
    rw (release_helper, q)
      (EndsSound-if (ltb 10 e.count) (and_then (clean_cache m 10 c') (λ d. send key m d))
        (send key m c')
        (λ l. elim w [
          | inl same ↦ send-cleaned env m c' e s q (ap (kept_under m) same) (ground (arith, l))
          | inr empty ↦ absurd (ground (arith, l, empty))
        ])
        (λ l. send-IsSound key m c' e s q (ground (arith, l))))

-- A release of any modifier into a sound cache ends, without a panic and without a wait for a full
-- channel, and leaves a sound cache: every count is the number of modifiers in its channel, which
-- are eleven at most.
pub release-IsSound : (m : Modifier) (c : Entries) → IsSound c → EndsSound (release m c)
unfolding release
release-IsSound m c h =
    elim m.stale
      as (λ b. EndsSound (if b then done tt c else release_helper (kept_under m c) m c)) [
        | true ↦ (c, refl, h)
        | false ↦ release_helper-IsSound m c h
      ]

-- `CleanCache` leaves a sound cache, or it panics, which it does only where the modifier's key is
-- missing from the cache: with no entry under its environment and address.
clean_cache-IsSound :
    (m : Modifier) (limit : ℕ) (c : Entries)
    → IsSound c
    → EndsSound (clean_cache m limit c)
      ⊎ ((clean_cache m limit c ≡ crashed) × (find (cache_key (kept_under m c) m.address) c ≡ none))
unfolding clean_cache
clean_cache-IsSound m limit c h =
    let env = kept_under m c in
    let key = cache_key env m.address in
    elim (Option-cases (find key c)) [
      | inl q ↦ inr (rw (clean_cache_helper, q) refl, q)
      | inr (e, q) ↦ inl (
        update key (cleaned limit e) c,
        clean_cache_helper-entry env m.address limit c e q,
        update-IsSound key c (cleaned limit e) h
            (cleaned-IsSoundEntry limit e (find-IsSound key c e h q)),
      )
    ]

prune_cache-IsSound :
    (env addr : Text) (limit : ℕ) (c : Entries) → IsSound c → IsSound (prune_cache env addr limit c)
unfolding prune_cache
prune_cache-IsSound env addr limit c h =
    let key = cache_key env addr in
    elim (Option-cases (find key c)) [
      | inl q ↦ rw (prune_cache, q) h
      | inr (e, q) ↦
          rw (prune_cache, q)
            (elim (ltb limit e.count)
              as (λ b. IsSound (if b then update key (cleaned limit e) c else c)) [
                | true ↦
                    update-IsSound key c (cleaned limit e) h
                      (cleaned-IsSoundEntry limit e (find-IsSound key c e h q))
                | false ↦ h
              ])
    ]

take_first-IsSound :
    (key : Text) (c : Entries) (n : ℕ) (ms : List Modifier)
    → IsSound c
    → (n ≡ length ms) × (n ≤ 11)
    → IsSound (take_first key c n ms).1
take_first-IsSound key c n [] h k = h
take_first-IsSound key c n (m ∷ ms) h (a, l) =
    update-IsSound key c (record { count = decrement n; channel = ms }) h
      (ground (arith, a, decrement-suc (length ms)))

take_out-IsSound : (key : Text) (c : Entries) → IsSound c → IsSound (take_out key c (find key c)).1
take_out-IsSound key c h = elim (Option-cases (find key c)) [
  | inl q ↦ rw q h
  | inr (e, q) ↦ rw q (take_first-IsSound key c e.count e.channel h (find-IsSound key c e h q))
]

-- `NewModifier` leaves a sound cache, with the cache and without.
new_modifier-IsSound :
    (insecure : Bool) (address env : Text) (regions : List Text) (use_cache : Bool) (c : Entries)
    → IsSound c
    → IsSound (new_modifier insecure address env regions use_cache c).1
unfolding new_modifier cached_modifier_helper
new_modifier-IsSound insecure address env regions false c h = h
new_modifier-IsSound insecure address env regions true c h =
    let pruned = prune_cache env address 10 c in
    let (s, w) =
      check_init_mod_cache_lem env address pruned (prune_cache-IsSound env address 10 c h) in
    take_out-IsSound (cache_key env address) (check_init_mod_cache env address pruned) s
