-- ===== src/ConfigStore/Buckets.antt =====
-- The buckets that are kept while the links of a path are followed hold what was read.
use tierceron.Base.{
  ◌≡◌, refl, sym, ◌∙◌, Option, none, some, List, [], ◌∷◌, ◌++◌, inl, inr, Bool-cases, Option-cases,
  if_cases,
}
use tierceron.ConfigStore.Linked.{SoundBuckets}
use tierceron.ConfigStore.Links.{
  Resolved, link_parts, opened, open_bucket, found_value, put_value, regional, put_regions,
  open_with, from_bucket, follow, resolve_value,
}
use tierceron.ConfigStore.Stored.{Ensures}
use tierceron.GoMaps.{Map, fetch, store, fetch-store, fetch-store_other}
use tierceron.GoStrings.{Text, codes, text_eq}
use tierceron.GoStrings.Equality.{text_eq_iff}
use mathlib.Core.Path.{subst}
use tierceron.Modifier.ReadData.{read_map_value}
use tierceron.Modifier.Vault.{Value, scalar, items, Fields}

regional-buckets :
    (name : Text) (o : Option Text) (r : Resolved) → (regional name o r).buckets ≡ r.buckets
regional-buckets name none r = refl
regional-buckets name (some v) r = refl

put_regions-buckets :
    (d : Fields) (name key : Text) (regions : List Text) (r : Resolved)
    → (put_regions d name key regions r).buckets ≡ r.buckets
unfolding put_regions
put_regions-buckets d name key [] r = refl
put_regions-buckets d name key (region ∷ rest) r =
    let o = read_map_value d (key ++ (codes "~" ++ region)) in
    let next : Resolved = regional (name ++ (codes "~" ++ region)) o r in
    put_regions-buckets d name key rest next ∙ regional-buckets (name ++ (codes "~" ++ region)) o r

found_value-buckets :
    (name : Text) (o : Option Text) (r : Resolved) → (found_value name o r).buckets ≡ r.buckets
found_value-buckets name none r = refl
found_value-buckets name (some v) r = refl

put_value-buckets :
    (name bucket : Text) (o : Option Text) (r : Resolved)
    → (put_value name bucket o r).buckets ≡ r.buckets
unfolding put_value
put_value-buckets name bucket o r =
    if_cases (λ (x : Resolved). x.buckets ≡ r.buckets)
      (text_eq bucket (codes "super-secrets/Common")) _ _ (λ e. refl)
      (λ e. found_value-buckets name o r)

module _ (read : Text → Option Fields) (regions : List Text) where
  stored-SoundBuckets :
      (b c : Text) (d e : Fields) (m : Map Fields)
      → read b ≡ some d
      → (fetch c m ≡ some e → read c ≡ some e)
      → fetch c (store b d m) ≡ some e
      → read c ≡ some e
  stored-SoundBuckets b c d e m h k f = elim (Bool-cases (text_eq b c)) [
    | inl t ↦
        let same : b ≡ c = (text_eq_iff b c).0 t in
        let found : fetch c (store b d m) ≡ some d =
          subst (λ x. fetch x (store b d m) ≡ some d) same (fetch-store b d m) in
        let again : read c ≡ some d = subst (λ x. read x ≡ some d) same h in again ∙ (sym found ∙ f)
    | inr t ↦ k (sym (fetch-store_other b c d m t) ∙ f)
  ]

  open_with-SoundBuckets :
      (name bucket : Text) (o : Option Fields) (r : Resolved)
      → SoundBuckets read r
      → SoundBuckets read (open_with read name bucket o r).1
  open_with-SoundBuckets name bucket (some d) r h = h
  open_with-SoundBuckets name bucket none r h = elim (Option-cases (read bucket)) [
    | inl e ↦ rw (opened, e) h
    | inr (d, e) ↦
        subst (λ o. SoundBuckets read (opened name bucket o r).1) (sym e)
          (λ c x. stored-SoundBuckets bucket c d x r.buckets e (h c x))
  ]

  from_bucket-buckets :
      (name bucket key : Text) (x : Fields × Resolved)
      → (from_bucket regions name bucket key x).buckets ≡ x.1.buckets
  unfolding from_bucket
  from_bucket-buckets name bucket key (d, r) =
      put_regions-buckets d name key regions (put_value name bucket (read_map_value d key) r)
      ∙ put_value-buckets name bucket (read_map_value d key) r

  follow-SoundBuckets :
      (name : Text) (o : Option (Text × Text)) (r : Resolved)
      → SoundBuckets read r
      → Ensures (SoundBuckets read) (follow read regions name o r)
  unfolding open_bucket
  follow-SoundBuckets name none r h = tt
  follow-SoundBuckets name (some (bucket, key)) r h =
      let x = open_bucket read name bucket r in
      subst (λ (m : Map Fields). (b : Text) (d : Fields) → fetch b m ≡ some d → read b ≡ some d)
        (sym (from_bucket-buckets name bucket key x))
        (open_with-SoundBuckets name bucket (fetch bucket r.buckets) r h)

  pub resolve_value-SoundBuckets :
      (name : Text) (o : Option Value) (r : Resolved)
      → SoundBuckets read r
      → Ensures (SoundBuckets read) (resolve_value read regions name o r)
  unfolding resolve_value
  resolve_value-SoundBuckets name none r h = h
  resolve_value-SoundBuckets name (some (scalar v)) r h = h
  resolve_value-SoundBuckets name (some (items link)) r h =
      follow-SoundBuckets name (link_parts link) r h
