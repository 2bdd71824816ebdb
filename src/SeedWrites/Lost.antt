-- ===== src/SeedWrites/Lost.antt =====
-- Which values of a seed file are lost where a client can always be made, and where the others go.
use tierceron.Base.{
  ℕ, ◌+◌, ◌≡◌, refl, ap, ◌∙◌, true, false, List, [], ◌∷◌, if◌then◌else◌, arith, All, if_cases, some,
  none, Option,
}
use tierceron.GoStrings.{Text, codes, is_empty, contains}
use tierceron.Modifier.{Modifier}
use tierceron.Modifier.Cache.{checked_out}
use tierceron.Modifier.Paths.{write_path}
use tierceron.SeedWrites.{Collection}
use tierceron.SeedWrites.Writes.{
  Answers, Driver, Writer, Effect, stored, lost, Seeded, seeded, ended, after_effects, write_once,
  write_data, counts, under_templates, moved, connect, reconnected, or_fresh,
}
use tierceron.SeedWrites.Values.{
  then_seed, Wanted, has_field, seeds_cert, seeds_data, seed_entry, seed_entries, placed,
  seed_connected, seed_values,
}

-- values that are no template and no certificate
abbrev pub PlainData : Collection → Type 0
PlainData c = (under_templates c.path ≡ false) × (has_field (codes "certData") c.fields ≡ false)

-- What becomes of values behind each other: those whose write succeeds are stored at the path that the
-- modifier gives; the others are lost, and the next modifier takes its place.
abbrev pub fates : Answers → (ℕ → Modifier) → ℕ → Modifier → List Collection → List Effect
fates a next k m [] = []
fates a next k m (c ∷ cs) =
    if a.write_ok k (write_path m c.path)
    then stored (write_path m c.path) c.fields ∷ fates a next (k + 1) m cs
    else lost c.path ∷ fates a next (k + 2) (next (k + 1)) cs

-- what has been done where all values have been seeded
abbrev pub done : Seeded → Option (List Effect)
done (seeded w es) = some es
done (ended es) = none

abbrev pub all_done : Option Seeded → Option (List Effect)
all_done none = none
all_done (some s) = done s

-- No certificates and no service are asked for, and the file is no public index.
abbrev pub IsWhole : Wanted → Type 0
IsWhole g =
    (g.want_certs ≡ false)
    × (is_empty g.service ≡ true)
    × (contains g.filepath (codes "/PublicIndex/") ≡ false)

-- the modifier that `NewModifier` gives with the cache
abbrev pub renewed : Answers → Driver → ℕ → Modifier
renewed a d k = checked_out d.insecure d.address d.env [] (a.pooled k)

module _ (a : Answers) (d : Driver) (g : Wanted) where
  or_fresh-checked_out :
      (k : ℕ) (o : Option Modifier)
      → a.client_ok k ≡ true
      → or_fresh a d k o ≡ some (checked_out d.insecure d.address d.env [] o)
  or_fresh-checked_out k none h = rw h refl
  or_fresh-checked_out k (some m) h = refl

  connect-renewed : (k : ℕ) → a.client_ok k ≡ true → connect a d true k ≡ some (renewed a d k)
  unfolding connect
  connect-renewed k h = or_fresh-checked_out k (a.pooled k) h

  done-after_effects :
      (e : Effect) (s : Seeded) (es : List Effect)
      → done s ≡ some es
      → done (after_effects (e ∷ []) s) ≡ some (e ∷ es)
  done-after_effects e (seeded w fs) es h = cc
  done-after_effects e (ended fs) es h = cc

  write_once-stored :
      (w : Writer) (path : Text) (fields : List (Text × Text))
      → a.write_ok w.asked (write_path w.modifier path) ≡ true
      → write_once a d w path fields
        ≡ some (moved w w.modifier (w.asked + 1), stored (write_path w.modifier path) fields)
  unfolding write_once
  write_once-stored w path fields e = rw e refl

  write_once-lost :
      (w : Writer) (path : Text) (fields : List (Text × Text))
      → a.client_ok (w.asked + 1) ≡ true
      → a.write_ok w.asked (write_path w.modifier path) ≡ false
      → write_once a d w path fields
        ≡ some (moved w (renewed a d (w.asked + 1)) (w.asked + 2), lost path)
  unfolding write_once
  write_once-lost w path fields h e =
      rw e (ap (reconnected a d w path fields) (connect-renewed (w.asked + 1) h))

  write_data-plain :
      (w : Writer) (c : Collection) (next : Writer) (e : Effect)
      → under_templates c.path ≡ false
      → write_once a d w c.path c.fields ≡ some (next, e)
      → write_data a d w c.path c.fields ≡ seeded next (e ∷ [])
  unfolding write_data
  write_data-plain w c next e t h = rw (t, h, counts, t) refl

  no_certificate : (c : Collection) → g.want_certs ≡ false → seeds_cert g c ≡ false
  no_certificate c k = ground (arith, k)

  data_seeded :
      (c : Collection)
      → g.want_certs ≡ false
      → has_field (codes "certData") c.fields ≡ false
      → seeds_data g c ≡ true
  data_seeded c k d = ground (arith, k, d)

  seed_entry-plain :
      (w : Writer) (c : Collection)
      → IsWhole g
      → PlainData c
      → seed_entry a d g w c ≡ write_data a d w c.path c.fields
  unfolding seed_entry
  seed_entry-plain w c (k, s, f) p = rw (no_certificate c k, data_seeded c k p.1, s, f) refl

  seed_entries-step :
      (w next : Writer) (c : Collection) (cs : List Collection) (e : Effect) (es : List Effect)
      → IsWhole g
      → PlainData c
      → write_once a d w c.path c.fields ≡ some (next, e)
      → done (seed_entries a d g next cs) ≡ some es
      → done (seed_entries a d g w (c ∷ cs)) ≡ some (e ∷ es)
  unfolding seed_entries
  seed_entries-step w next c cs e es i p h r =
      ap (λ s. done (then_seed s (λ n. seed_entries a d g n cs)))
        (seed_entry-plain w c i p ∙ write_data-plain w c next e p.0 h)
      ∙ done-after_effects e (seed_entries a d g next cs) es r

  no_entries-done : (w : Writer) → done (seed_entries a d g w []) ≡ some []
  unfolding seed_entries
  no_entries-done w = refl

  seed_entries-fates :
      (w : Writer) (cs : List Collection)
      → ((k : ℕ) → a.client_ok k ≡ true)
      → IsWhole g
      → All PlainData cs
      → done (seed_entries a d g w cs) ≡ some (fates a (renewed a d) w.asked w.modifier cs)
  seed_entries-fates w [] h i p = no_entries-done w
  seed_entries-fates w (c ∷ cs) h i p =
      let kept = moved w w.modifier (w.asked + 1) in
      let next = moved w (renewed a d (w.asked + 1)) (w.asked + 2) in
      if_cases (λ es. done (seed_entries a d g w (c ∷ cs)) ≡ some es)
        (a.write_ok w.asked (write_path w.modifier c.path)) _ _
        (λ e.
          seed_entries-step w kept c cs _ _ i p.0 (write_once-stored w c.path c.fields e)
            (seed_entries-fates kept cs h i p.1))
        (λ e.
          seed_entries-step w next c cs _ _ i p.0
            (write_once-lost w c.path c.fields (h (w.asked + 1)) e)
            (seed_entries-fates next cs h i p.1))

-- Where a client can always be made, no certificates and no service are asked for and the file is no
-- public index: the values of a file that are no templates and no certificates are seeded to the end.
-- The first modifier is set to the environment and the section of the file; those values are stored
-- whose first write succeeds, at the path of the modifier in use, and all others are lost, without an
-- error and without a second write. Behind each lost one the modifier in use is the one that
-- `NewModifier` then gives, with its own environment and no section.
pub seed_values-fates :
    (a : Answers) (d : Driver) (g : Wanted) (written : List Text) (cs : List Collection)
    → ((k : ℕ) → a.client_ok k ≡ true)
    → IsWhole g
    → All PlainData cs
    → all_done (seed_values a d g written cs)
      ≡ some (fates a (renewed a d) 1 (placed d g (renewed a d 0)) cs)
unfolding seed_values
seed_values-fates a d g written cs h i p =
    let m = placed d g (renewed a d 0) in
    ap (λ o. all_done (seed_connected a d g written cs o)) (connect-renewed a d g 0 (h 0))
    ∙ seed_entries-fates a d g (record { modifier = m; written = written; asked = 1 }) cs h i p
