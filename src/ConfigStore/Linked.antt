-- ===== src/ConfigStore/Linked.antt =====
-- What becomes of one link among the values of a path.
use tierceron.Base.{
  ◌≡◌, refl, sym, ◌∙◌, true, false, Option, none, some, List, [], ◌∷◌, ◌++◌, arith, inl, inr,
  Option-cases, if_cases,
}
use tierceron.ConfigStore.Links.{
  Resolved, link_parts, opened, open_bucket, or_empty, found_value, put_value, regional,
  put_regions, open_with, from_bucket, follow, resolve_value, discard_all,
}
use tierceron.ConfigStore.Stored.{Ensures}
use tierceron.GoMaps.{Map, fetch, discard, keys_of, fetch-store_other, fetch-discard_other}
use tierceron.GoStrings.{Text, codes, text_eq}
use tierceron.GoStrings.Equality.{mem_text, text_eq_sym}
use tierceron.GoStrings.Search.{Lacks}
use mathlib.Core.Path.{subst}
use tierceron.Modifier.ReadData.{read_map_value}
use tierceron.Modifier.Vault.{Value, scalar, items, text, Fields}

mem_text-append :
    (s : Text) (ts : List Text) (t : Text)
    → mem_text s ts ≡ false
    → text_eq s t ≡ false
    → mem_text s (ts ++ t ∷ []) ≡ false
unfolding mem_text
mem_text-append s [] t h k = ground arith
mem_text-append s (u ∷ ts) t h k = ground (arith, mem_text-append s ts t)

pub mem_text-keys_of :
    {A : Type 0} (s : Text) (m : Map A) → fetch s m ≡ none → mem_text s (keys_of m) ≡ false
unfolding mem_text fetch
mem_text-keys_of s [] h = refl
mem_text-keys_of s ((k, v) ∷ m) h = ground (arith, mem_text-keys_of s m, text_eq_sym s k)

pub mem_text-fetch :
    {A : Type 0} (s : Text) (m : Map A) (v : A) → fetch s m ≡ some v → mem_text s (keys_of m) ≡ true
unfolding mem_text fetch
mem_text-fetch s [] v h = cc
mem_text-fetch s ((k, w) ∷ m) v h = ground (arith, mem_text-fetch s m v, text_eq_sym s k)

pub fetch-discard_all :
    (name : Text) (names : List Text) (m : Fields)
    → mem_text name names ≡ false
    → fetch name (discard_all names m) ≡ fetch name m
unfolding discard_all mem_text
fetch-discard_all name [] m h = refl
fetch-discard_all name (n ∷ names) m h =
    fetch-discard_all name names (discard n m) (ground arith)
    ∙ fetch-discard_other n name m (ground (arith, text_eq_sym n name))

text_eq-region :
    (name other region : Text) → Lacks b'~' name → text_eq (other ++ b'~' ∷ region) name ≡ false
unfolding text_eq
text_eq-region [] [] region h = refl
text_eq-region (c ∷ name) [] region h = ground arith
text_eq-region [] (d ∷ other) region h = refl
text_eq-region (c ∷ name) (d ∷ other) region h =
    ground (arith, text_eq-region name other region h.1)

-- what the loop keeps has this value for the name, which is not to be left out
abbrev pub Sees : Text → Value → Resolved → Type 0
Sees name w r =
    (mem_text name r.no_value_keys ≡ false)
    × (fetch name r.common_values ≡ none)
    × (fetch name r.current ≡ some w)

abbrev pub SoundBuckets : (Text → Option Fields) → Resolved → Type 0
SoundBuckets read r = (b : Text) (d : Fields) → fetch b r.buckets ≡ some d → read b ≡ some d

module _ (name : Text) (w : Value) where
  regional-Sees :
      (other : Text) (o : Option Text) (r : Resolved)
      → text_eq other name ≡ false
      → Sees name w r
      → Sees name w (regional other o r)
  regional-Sees other none r h s = s
  regional-Sees other (some v) r h s =
      (s.0, s.1, fetch-store_other other name (scalar (text v)) r.current h ∙ s.2)

  pub put_regions-Sees :
      (d : Fields) (other key : Text) (regions : List Text) (r : Resolved)
      → Lacks b'~' name
      → Sees name w r
      → Sees name w (put_regions d other key regions r)
  unfolding put_regions
  put_regions-Sees d other key [] r h s = s
  put_regions-Sees d other key (region ∷ rest) r h s =
      let o = read_map_value d (key ++ (codes "~" ++ region)) in
      put_regions-Sees d other key rest (regional (other ++ (codes "~" ++ region)) o r) h
        (regional-Sees (other ++ (codes "~" ++ region)) o r (text_eq-region name other region h) s)

  found_value-Sees :
      (other : Text) (o : Option Text) (r : Resolved)
      → text_eq other name ≡ false
      → Sees name w r
      → Sees name w (found_value other o r)
  found_value-Sees other none r h s =
      (mem_text-append name r.no_value_keys other s.0 (text_eq_sym name other ∙ h), s.1, s.2)
  found_value-Sees other (some v) r h s =
      (s.0, s.1, fetch-store_other other name (scalar (text v)) r.current h ∙ s.2)

  put_value-Sees :
      (other bucket : Text) (o : Option Text) (r : Resolved)
      → text_eq other name ≡ false
      → Sees name w r
      → Sees name w (put_value other bucket o r)
  unfolding put_value
  put_value-Sees other bucket o r h s =
      if_cases (Sees name w) (text_eq bucket (codes "super-secrets/Common")) _ _
        (λ e. (
          s.0,
          fetch-store_other other name (scalar (text (or_empty o))) r.common_values h ∙ s.1,
          s.2,
        ))
        (λ e. found_value-Sees other o r h s)

  opened-Sees :
      (other bucket : Text) (o : Option Fields) (r : Resolved)
      → text_eq other name ≡ false
      → Sees name w r
      → Sees name w (opened other bucket o r).1
  opened-Sees other bucket none r h s =
      (mem_text-append name r.no_value_keys other s.0 (text_eq_sym name other ∙ h), s.1, s.2)
  opened-Sees other bucket (some d) r h s = s

  open_with-Sees :
      (read : Text → Option Fields) (other bucket : Text) (o : Option Fields) (r : Resolved)
      → text_eq other name ≡ false
      → Sees name w r
      → Sees name w (open_with read other bucket o r).1
  open_with-Sees read other bucket none r h s = opened-Sees other bucket (read bucket) r h s
  open_with-Sees read other bucket (some d) r h s = s

  from_bucket-Sees :
      (regions : List Text) (other bucket key : Text) (x : Fields × Resolved)
      → Lacks b'~' name
      → text_eq other name ≡ false
      → Sees name w x.1
      → Sees name w (from_bucket regions other bucket key x)
  unfolding from_bucket
  from_bucket-Sees regions other bucket key (d, r) l h s =
      put_regions-Sees d other key regions (put_value other bucket (read_map_value d key) r) l
        (put_value-Sees other bucket (read_map_value d key) r h s)

  -- another value
  pub resolve_value-Sees :
      (read : Text → Option Fields) (regions : List Text) (other : Text) (o : Option Value)
      (r : Resolved)
      → Lacks b'~' name
      → text_eq other name ≡ false
      → Sees name w r
      → Ensures (Sees name w) (resolve_value read regions other o r)
  unfolding resolve_value open_bucket
  resolve_value-Sees read regions other none r l h s = s
  resolve_value-Sees read regions other (some (scalar v)) r l h s = s
  resolve_value-Sees read regions other (some (items link)) r l h s =
      elim (Option-cases (link_parts link)) [
        | inl e ↦ rw (Ensures, follow, e) tt
        | inr ((bucket, key), e) ↦
            subst (λ p. Ensures (Sees name w) (follow read regions other p r)) (sym e)
              (from_bucket-Sees regions other bucket key (open_bucket read other bucket r) l h
                (open_with-Sees read other bucket (fetch bucket r.buckets) r h s))
      ]
