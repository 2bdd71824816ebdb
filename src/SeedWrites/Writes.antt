-- ===== src/SeedWrites/Writes.antt =====
-- WriteData of pkg/trcinit/initlib/vault-seed.go: what becomes of the values of one path, and which
-- modifier is in use from then on. How the vault answers is a parameter, and what has been done is a
-- list of effects.
use tierceron.Base.{
  ℕ, Bool, true, false, Option, none, some, List, [], ◌∷◌, ◌++◌, ◌+◌, if◌then◌else◌,
}
use tierceron.ConfigStore.Selection.{first_part}
use tierceron.GoStrings.{Text, codes, text_eq, split}
use tierceron.GoStrings.Equality.{mem_text}
use tierceron.Modifier.{Modifier}
use tierceron.Modifier.Cache.{reset_modifier, fresh_modifier}
use tierceron.Modifier.Paths.{write_path}
use tierceron.SeedWrites.{Collection}

-- How the vault answers, by the number of requests so far: whether a write of a path succeeds, which
-- modifier the cache gives, and whether a client can be made. Those for certificates do not count.
pub record Answers : Type 0 where
  pub write_ok : ℕ → Text → Bool
  pub pooled : ℕ → Option Modifier
  pub client_ok : ℕ → Bool

-- what the connections take of the configuration
pub record Driver : Type 0 where
  pub insecure : Bool
  pub address : Text
  pub env : Text
  pub exit_on_failure : Bool

-- The modifier in use, the templates that have been written, and the number of requests.
pub record Writer : Type 0 where
  pub modifier : Modifier
  pub written : List Text
  pub asked : ℕ

-- `stored`, with the path in the vault, and `lost` say what has become of a write, `reported` that it
-- has failed with an error in the log, and `counted` that the metrics have been adjusted.
pub data Effect : Type 0 where
  stored : Text → List (Text × Text) → Effect
  lost : Text → Effect
  reported : Text → Effect
  counted : Modifier → List (Text × Text) → Effect
  certificate : Collection → Effect
  skipped : Text → Effect

-- What is left behind, and what has been done; or the process has ended.
pub data Seeded : Type 0 where
  seeded : Writer → List Effect → Seeded
  ended : List Effect → Seeded

abbrev pub after_effects : List Effect → Seeded → Seeded
after_effects es (seeded w fs) = seeded w (es ++ fs)
after_effects es (ended fs) = ended (es ++ fs)

-- the modifier that the cache gives, or a fresh one
abbrev pub or_fresh : Answers → Driver → ℕ → Option Modifier → Option Modifier
or_fresh a d k (some m) = some (reset_modifier d.insecure d.env [] m)
or_fresh a d k none =
    if a.client_ok k then some (fresh_modifier d.insecure d.address d.env []) else none

-- `NewModifier`
unfoldable pub connect : Answers → Driver → (use_cache : Bool) → ℕ → Option Modifier
connect a d use_cache k = or_fresh a d k (if use_cache then a.pooled k else none)

abbrev pub under_templates : Text → Bool
under_templates path = text_eq (first_part (split path (codes "/"))) (codes "templates")

abbrev pub counts : Modifier → Text → List (Text × Text) → List Effect
counts m path fields = if under_templates path then counted m fields ∷ [] else []

abbrev pub moved : Writer → Modifier → ℕ → Writer
moved w m asked = record w { modifier = m; asked = asked }

-- the second write, behind a connection without the cache
abbrev pub write_again :
    Answers
    → Driver
    → Writer
    → Text
    → List (Text × Text)
    → Option Modifier
    → Option (Writer × Effect)
write_again a d w path fields none = none
write_again a d w path fields (some m) =
    let next = moved w m (w.asked + 4) in
    if a.write_ok (w.asked + 3) (write_path m path)
    then some (next, stored (write_path m path) fields)
    else if d.exit_on_failure
    then none
    else some (next, reported path)

-- behind a write that has failed, and the connection from the cache
abbrev pub reconnected :
    Answers
    → Driver
    → Writer
    → Text
    → List (Text × Text)
    → Option Modifier
    → Option (Writer × Effect)
reconnected a d w path fields (some m) = some (moved w m (w.asked + 2), lost path)
reconnected a d w path fields none = write_again a d w path fields (connect a d false (w.asked + 2))

-- What becomes of one write, and the modifier from then on; `none` is the end of the process.
unfoldable pub write_once :
    Answers → Driver → Writer → Text → List (Text × Text) → Option (Writer × Effect)
unfolding connect write_path
write_once a d w path fields =
    let full = write_path w.modifier path in
    if a.write_ok w.asked full
    then some (moved w w.modifier (w.asked + 1), stored full fields)
    else reconnected a d w path fields (connect a d true (w.asked + 1))

abbrev pub after_write : Text → List (Text × Text) → Option (Writer × Effect) → Seeded
after_write path fields none = ended []
after_write path fields (some (w, e)) = seeded w (e ∷ counts w.modifier path fields)

-- `WriteData`: a template is written once
unfoldable pub write_data : Answers → Driver → Writer → Text → List (Text × Text) → Seeded
unfolding write_once
write_data a d w path fields =
    let marked = record w { written = path ∷ w.written } in
    if under_templates path
    then (if mem_text path w.written
        then seeded w []
        else after_write path fields (write_once a d marked path fields))
    else after_write path fields (write_once a d w path fields)
