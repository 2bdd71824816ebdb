-- ===== src/ConfigStore/Followed.antt =====
-- A link among the values of a path leads to the text that its bucket holds.
use tierceron.Base.{
  ◌≡◌, refl, sym, ap, ◌∙◌, true, false, Option, none, some, List, [], ◌∷◌, arith, ◌⊎◌, inl, inr,
  Bool-cases, Option-cases,
}
use tierceron.ConfigStore.Buckets.{resolve_value-SoundBuckets}
use tierceron.ConfigStore.Linked.{
  Sees, SoundBuckets, put_regions-Sees, resolve_value-Sees, mem_text-keys_of, fetch-discard_all,
  mem_text-fetch,
}
use tierceron.ConfigStore.Links.{
  done, Resolved, link_parts, open_bucket, put_value, open_with, from_bucket, follow, resolve_value,
  resolve_values, scrub, kept_values, resolve, discard_all,
}
use tierceron.ConfigStore.Stored.{Ensures, Ensures-bind, Ensures-both}
use tierceron.GoMaps.{fetch, keys_of, fetch-store}
use tierceron.GoStrings.{Text, codes, text_eq}
use tierceron.GoStrings.Equality.{mem_text, text_eq_iff, text_eq_sym}
use tierceron.GoStrings.Search.{Lacks}
use mathlib.Core.Path.{subst}
use tierceron.Modifier.ReadData.{read_map_value}
use tierceron.Modifier.Vault.{Value, scalar, items, Scalar, text, Fields}

-- A link to a text in a bucket that is read and that is not the common one, under a name without
-- the mark of a region.
pub record LeadsTo (read : Text → Option Fields) (name : Text) (link : List Scalar)
    (bucket key : Text) (d : Fields) (v : Text) : Type 0 where
  pub parts : link_parts link ≡ some (bucket, key)
  pub apart : text_eq bucket (codes "super-secrets/Common") ≡ false
  pub readable : read bucket ≡ some d
  pub value : read_map_value d key ≡ some v
  pub plain_name : Lacks b'~' name

module _ (read : Text → Option Fields) (regions : List Text) (name : Text) (link : List Scalar)
    (bucket key : Text) (d : Fields) (v : Text) where
  abbrev Before : Resolved → Type 0
  Before r = SoundBuckets read r × Sees name (items link) r

  abbrev After : Resolved → Type 0
  After r = SoundBuckets read r × Sees name (scalar (text v)) r

  open_with-read :
      (o : Option Fields) (r : Resolved)
      → LeadsTo read name link bucket key d v
      → (o ≡ none ⊎ (o ≡ some d))
      → (open_with read name bucket o r).0 ≡ d
  open_with-read none r l h = rw l.readable refl
  open_with-read (some e) r l (inl h) = cc
  open_with-read (some e) r l (inr h) = cc

  open_with-current :
      (o : Option Fields) (r : Resolved)
      → LeadsTo read name link bucket key d v
      → Sees name (items link) r
      → Sees name (items link) (open_with read name bucket o r).1
  open_with-current none r l h = rw l.readable h
  open_with-current (some e) r l h = h

  put_value-After :
      (r : Resolved)
      → LeadsTo read name link bucket key d v
      → Sees name (items link) r
      → Sees name (scalar (text v)) (put_value name bucket (some v) r)
  unfolding put_value
  put_value-After r l h = rw l.apart (h.0, h.1, fetch-store name (scalar (text v)) r.current)

  from_bucket-After :
      (x : Fields × Resolved)
      → LeadsTo read name link bucket key d v
      → x.0 ≡ d
      → Sees name (items link) x.1
      → Sees name (scalar (text v)) (from_bucket regions name bucket key x)
  unfolding from_bucket
  from_bucket-After (e, r) l p h =
      let found : read_map_value e key ≡ some v = ap (λ m. read_map_value m key) p ∙ l.value in
      rw found (
        put_regions-Sees name (scalar (text v)) e name key regions
          (put_value name bucket (some v) r) l.plain_name (put_value-After r l h))

  bucket_known :
      (r : Resolved)
      → LeadsTo read name link bucket key d v
      → SoundBuckets read r
      → (fetch bucket r.buckets ≡ none) ⊎ (fetch bucket r.buckets ≡ some d)
  bucket_known r l s = elim (Option-cases (fetch bucket r.buckets)) [
    | inl e ↦ inl e
    | inr (x, e) ↦ inr (e ∙ (sym (s bucket x e) ∙ l.readable))
  ]

  follow-After :
      (r : Resolved)
      → LeadsTo read name link bucket key d v
      → Before r
      → Ensures (Sees name (scalar (text v))) (follow read regions name (link_parts link) r)
  unfolding open_bucket
  follow-After r l (s, h) =
      subst (λ p. Ensures (Sees name (scalar (text v))) (follow read regions name p r))
        (sym l.parts)
        (from_bucket-After (open_with read name bucket (fetch bucket r.buckets) r) l
          (open_with-read (fetch bucket r.buckets) r l (bucket_known r l s))
          (open_with-current (fetch bucket r.buckets) r l h))

  -- the link itself, and any other value
  visit-After :
      (r : Resolved)
      → LeadsTo read name link bucket key d v
      → Before r
      → Ensures After (resolve_value read regions name (fetch name r.current) r)
  unfolding resolve_value
  visit-After r l h =
      subst (λ o. Ensures After (resolve_value read regions name o r)) (sym h.1.2)
        (Ensures-both (SoundBuckets read) (Sees name (scalar (text v)))
          (follow read regions name (link_parts link) r)
          (resolve_value-SoundBuckets read regions name (some (items link)) r h.0)
          (follow-After r l h))

  visit_again :
      (r : Resolved)
      → After r
      → Ensures After (resolve_value read regions name (fetch name r.current) r)
  unfolding resolve_value
  visit_again r h = subst (λ o. Ensures After (resolve_value read regions name o r)) (sym h.1.2) h

  visit_other :
      (other : Text) (w : Value) (r : Resolved)
      → LeadsTo read name link bucket key d v
      → text_eq other name ≡ false
      → SoundBuckets read r × Sees name w r
      → Ensures
          (λ s. SoundBuckets read s × Sees name w s)
          (resolve_value read regions other (fetch other r.current) r)
  visit_other other w r l n h =
      Ensures-both (SoundBuckets read) (Sees name w)
        (resolve_value read regions other (fetch other r.current) r)
        (resolve_value-SoundBuckets read regions other (fetch other r.current) r h.0)
        (resolve_value-Sees name w read regions other (fetch other r.current) r l.plain_name n h.1)

  loop_again :
      (names : List Text) (r : Resolved)
      → LeadsTo read name link bucket key d v
      → After r
      → Ensures After (resolve_values read regions names r)
  unfolding resolve_values
  loop_again [] r l h = h
  loop_again (n ∷ names) r l h =
      Ensures-bind After After (resolve_value read regions n (fetch n r.current) r)
        (resolve_values read regions names)
        (elim (Bool-cases (text_eq n name)) [
          | inl e ↦
              subst (λ t. Ensures After (resolve_value read regions t (fetch t r.current) r))
                (sym ((text_eq_iff n name).0 e)) (visit_again r h)
          | inr e ↦ visit_other n (scalar (text v)) r l e h
        ])
        (λ s k. loop_again names s l k)

  loop-After :
      (names : List Text) (r : Resolved)
      → LeadsTo read name link bucket key d v
      → mem_text name names ≡ true
      → Before r
      → Ensures After (resolve_values read regions names r)
  unfolding resolve_values mem_text
  loop-After [] r l m h = cc
  loop-After (n ∷ names) r l m h = elim (Bool-cases (text_eq n name)) [
    | inl e ↦
        Ensures-bind After After (resolve_value read regions n (fetch n r.current) r)
          (resolve_values read regions names)
          (subst (λ t. Ensures After (resolve_value read regions t (fetch t r.current) r))
            (sym ((text_eq_iff n name).0 e)) (visit-After r l h))
          (λ s k. loop_again names s l k)
    | inr e ↦
        Ensures-bind Before After (resolve_value read regions n (fetch n r.current) r)
          (resolve_values read regions names) (visit_other n (items link) r l e h)
          (λ s k. loop-After names s l (ground (arith, m, e, text_eq_sym n name)) k)
  ]

  left_value :
      (r : Resolved)
      → Sees name (scalar (text v)) r
      → fetch name (kept_values r).0 ≡ some (scalar (text v))
  unfolding kept_values
  left_value r h =
      fetch-discard_all name (keys_of r.common_values) (discard_all r.no_value_keys r.current)
        (mem_text-keys_of name r.common_values h.1)
      ∙ (fetch-discard_all name r.no_value_keys r.current h.0 ∙ h.2)

  -- The values of a path that are left have the text that a link among them leads to.
  pub resolve-link :
      (values : Fields) (kept : Fields × Fields)
      → LeadsTo read name link bucket key d v
      → fetch name (scrub values []) ≡ some (items link)
      → resolve read regions values ≡ done kept
      → fetch name kept.0 ≡ some (scalar (text v))
  unfolding resolve kept_values fetch mem_text
  resolve-link values kept l h e =
      let scrubbed = scrub values [] in
      let start : Resolved = record {
        current = scrubbed;
        common_values = [];
        no_value_keys = [];
        buckets = [];
      } in
      let P : Fields × Fields → Type 0 = λ x. fetch name x.0 ≡ some (scalar (text v)) in
      subst (Ensures P) e (
        Ensures-bind After P (resolve_values read regions (keys_of scrubbed) start)
          (λ r. done (kept_values r))
          (loop-After (keys_of scrubbed) start l (mem_text-fetch name scrubbed (items link) h)
            ((λ b x p. cc), (refl, refl, h)))
          (λ r a. left_value r a.1))
