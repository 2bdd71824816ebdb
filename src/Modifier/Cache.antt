-- ===== src/Modifier/Cache.antt =====
-- The cache of modifiers: `NewModifier`, `Release`, `PruneCache`, `CleanCache`. The calls come one
-- after another. An entry's count is a uint64, and its channel holds 20 modifiers at most.
pub mod Entries
pub mod Sound
use tierceron.Base.{
  ℕ, zero, suc, ◌+◌, ◌-◌, ◌^◌, ◌%◌, Bool, true, false, not, ◌&&◌, Option, none, some, List, [], ◌∷◌,
  ◌++◌, length, ltb, if◌then◌else◌,
}
use tierceron.GoStrings.{Text, codes, text_eq, is_empty}
use tierceron.Modifier.{Modifier}

-- `modCache`
pub record Entry : Type 0 where
  pub count : ℕ
  pub channel : List Modifier

-- The map `modifierCache`, and what a call ends with: it goes on, it panics on a key that is
-- missing, or it waits for ever to send on a full channel.
pub data Ended (A : Type 0) : Type 0 where
  done : A → List (Text × Entry) → Ended A
  crashed : Ended A
  blocked : Ended A

abbrev pub Entries : Type 0
Entries = List (Text × Entry)

abbrev pub capacity : ℕ
capacity = 20

-- `modifierCache[key]`
unfoldable pub find : Text → Entries → Option Entry
unfolding text_eq
find key [] = none
find key ((k, e) ∷ rest) = let later = find key rest in if text_eq k key then some e else later

-- the map with another entry at a key that it has
unfoldable pub update : Text → Entry → Entries → Entries
unfolding text_eq
update key e [] = []
update key e ((k, f) ∷ rest) =
    let later = update key e rest in if text_eq k key then (k, e) ∷ rest else (k, f) ∷ later

-- `fmt.Sprintf("%s+%s", env, addr)`
abbrev pub cache_key : Text → Text → Text
cache_key env addr = env ++ (codes "+" ++ addr)

abbrev pub has_key : Option Entry → Bool
has_key none = false
has_key (some e) = true

-- `checkInitModCache`
unfoldable pub check_init_mod_cache : Text → Text → Entries → Entries
unfolding find
check_init_mod_cache env addr c =
    if has_key (find (cache_key env addr) c)
    then c
    else (cache_key env addr, record { count = 0; channel = [] }) ∷ c

-- `atomic.AddUint64(&count, 1)`
abbrev pub increment : ℕ → ℕ
increment n = (n + 1) % 2 ^ 64

-- `atomic.AddUint64(&count, ^uint64(0))`
abbrev pub decrement : ℕ → ℕ
decrement n = (n + (2 ^ 64 - 1)) % 2 ^ 64

-- The loop that takes modifiers out of the channel, `limit` at most; each is closed.
unfoldable pub drain : ℕ → ℕ → List Modifier → Entry
drain zero n channel = record { count = n; channel = channel }
drain (suc limit) n [] = record { count = n; channel = [] }
drain (suc limit) n (m ∷ channel) = drain limit (decrement n) channel

abbrev pub cleaned : ℕ → Entry → Entry
cleaned limit e = if ltb 1 e.count then drain limit e.count e.channel else e

-- `cleanCacheHelper`: a key that is missing is a nil pointer.
unfoldable pub clean_cache_helper : Text → Text → ℕ → Entries → Ended Unit
unfolding find update drain
clean_cache_helper env addr limit c = elim (find (cache_key env addr) c) [
  | none ↦ crashed
  | some e ↦ done tt (update (cache_key env addr) (cleaned limit e) c)
]

-- `PruneCache`
unfoldable pub prune_cache : Text → Text → ℕ → Entries → Entries
unfolding find update drain
prune_cache env addr limit c = elim (find (cache_key env addr) c) [
  | none ↦ c
  | some e ↦ if ltb limit e.count then update (cache_key env addr) (cleaned limit e) c else c
]

-- The environment under which a modifier is kept: `Release` and `CleanCache` look its own one up
-- among the keys, which are environments with addresses.
unfoldable pub kept_under : Modifier → Entries → Text
unfolding find
kept_under m c = if has_key (find m.env c) then m.env else m.raw_env

-- `CleanCache`, and `RemoveFromCache` with the limit 20
unfoldable pub clean_cache : Modifier → ℕ → Entries → Ended Unit
unfolding kept_under clean_cache_helper
clean_cache m limit c = clean_cache_helper (kept_under m c) m.address limit c

-- The send on the channel, after the count is incremented.
unfoldable pub send : Text → Modifier → Entries → Ended Unit
unfolding find update
send key m c = elim (find key c) [
  | none ↦ crashed
  | some e ↦
      if ltb (length e.channel) capacity
      then done tt
          (update key (record { count = increment e.count; channel = e.channel ++ m ∷ [] }) c)
      else blocked
]

abbrev pub and_then : Ended Unit → (Entries → Ended Unit) → Ended Unit
and_then (done u c) k = k c
and_then crashed k = crashed
and_then blocked k = blocked

-- `releaseHelper`
unfoldable pub release_helper : Text → Modifier → Entries → Ended Unit
unfolding check_init_mod_cache find clean_cache send
release_helper env m c =
    let c' = check_init_mod_cache env m.address c in
    let key = cache_key env m.address in
    elim (find key c') [
      | none ↦ crashed
      | some e ↦
          if ltb 10 e.count
          then and_then (clean_cache m 10 c') (λ d. send key m d)
          else send key m c'
    ]

-- `Release`: a stale modifier is closed and dropped.
unfoldable pub release : Modifier → Entries → Ended Unit
unfolding kept_under release_helper
release m c = if m.stale then done tt c else release_helper (kept_under m c) m c

-- a modifier out of the channel of an entry with this count
abbrev pub take_first : Text → Entries → ℕ → List Modifier → Option Modifier × Entries
take_first key c n [] = (none, c)
take_first key c n (m ∷ rest) =
    (some m, update key (record { count = decrement n; channel = rest }) c)

abbrev pub take_out : Text → Entries → Option Entry → Option Modifier × Entries
take_out key c none = (none, c)
take_out key c (some e) = take_first key c e.count e.channel

-- `cachedModifierHelper`: the first modifier of the channel, or none after 200 milliseconds
unfoldable pub cached_modifier_helper : Text → Text → Entries → Option Modifier × Entries
unfolding check_init_mod_cache find update
cached_modifier_helper env addr c =
    let c' = check_init_mod_cache env addr c in
    let key = cache_key env addr in take_out key c' (find key c')

-- the fields that `NewModifier` sets on a modifier out of the cache; its own environment stays
abbrev pub reset_modifier : Bool → Text → List Text → Modifier → Modifier
reset_modifier insecure env regions m = record m {
  insecure = insecure;
  raw_env = env;
  regions = regions;
  version = [];
  version_filter = [];
  template_path = [];
  project_index = [];
  section_key = [];
  section_name = [];
  sub_section_name = [];
  sub_section_value = [];
  section_path = [];
}

abbrev pub fresh_modifier : Bool → Text → Text → List Text → Modifier
fresh_modifier insecure address env regions = record {
  insecure = insecure;
  address = if is_empty address then codes "http://127.0.0.1:8020" else address;
  env = codes "secret";
  raw_env = env;
  regions = regions;
  version = [];
  version_filter = [];
  template_path = [];
  project_index = [];
  section_key = [];
  section_name = [];
  sub_section_name = [];
  sub_section_value = [];
  section_path = [];
  stale = false;
}

abbrev pub checked_out : Bool → Text → Text → List Text → Option Modifier → Modifier
checked_out insecure address env regions none = fresh_modifier insecure address env regions
checked_out insecure address env regions (some m) = reset_modifier insecure env regions m

-- `NewModifier`, where the client can be made
unfoldable pub new_modifier : Bool → Text → Text → List Text → Bool → Entries → Modifier × Entries
unfolding prune_cache cached_modifier_helper
new_modifier insecure address env regions use_cache c =
    let (o, c') = cached_modifier_helper env address (prune_cache env address 10 c) in
    if use_cache
    then (checked_out insecure address env regions o, c')
    else (fresh_modifier insecure address env regions, c)
