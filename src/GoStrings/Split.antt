-- ===== src/GoStrings/Split.antt =====
-- Laws of `Split` at a separator of one byte, and of `LastIndex` of one byte.
use tierceron.Base.{
  ℕ, suc, ◌≡◌, ◌≢◌, refl, ◌∙◌, [], ◌∷◌, ◌++◌, List, Option, none, some, arith, ◌==◌, if◌then◌else◌,
  All, take, drop, ap, length,
}
use tierceron.GoStrings.{
  Text, has_prefix, split_from, split, cons_head, join, later, last_index, index,
}
use tierceron.GoStrings.Search.{Lacks, has_prefix-nil, has_prefix-append}

-- the parts of a text between the bytes `b`
abbrev pub parts : ℕ → Text → List Text
parts b [] = [] ∷ []
parts b (c ∷ s) = let rest = parts b s in if c == b then [] ∷ rest else cons_head c rest

split_from-parts : (b : ℕ) (s : Text) → split_from (b ∷ []) 0 s ≡ parts b s
unfolding split_from has_prefix
split_from-parts b [] = refl
split_from-parts b (c ∷ s) = ground (arith, split_from-parts b s, has_prefix-nil s)

pub split-parts : (b : ℕ) (s : Text) → split s (b ∷ []) ≡ parts b s
unfolding split
split-parts b s = split_from-parts b s

pub parts-append : (b : ℕ) (p r : Text) → Lacks b p → parts b (p ++ b ∷ r) ≡ p ∷ parts b r
parts-append b [] r h = ground arith
parts-append b (c ∷ p) r h = ground (arith, parts-append b p r)

pub parts-Lacks : (b : ℕ) (p : Text) → Lacks b p → parts b p ≡ p ∷ []
parts-Lacks b [] h = refl
parts-Lacks b (c ∷ p) h = ground (arith, parts-Lacks b p)

parts-join :
    (b : ℕ) (p : Text) (ps : List Text)
    → All (Lacks b) (p ∷ ps)
    → parts b (join (p ∷ ps) (b ∷ [])) ≡ p ∷ ps
unfolding join
parts-join b p [] h = parts-Lacks b p h.0
parts-join b p (q ∷ ps) h =
    parts-append b p (join (q ∷ ps) (b ∷ [])) h.0
    ∙ ap (λ (t : List Text). p ∷ t) (parts-join b q ps h.1)

-- splitting a join gives the parts back, if there is a part and none holds the separator
pub split-join :
    (b : ℕ) (ps : List Text) → ps ≢ [] → All (Lacks b) ps → split (join ps (b ∷ [])) (b ∷ []) ≡ ps
split-join b [] h k = absurd (h refl)
split-join b (p ∷ ps) h k = rw split-parts (parts-join b p ps k)

-- what `LastIndex` of one byte says of the text
abbrev pub LastAt : ℕ → Text → Option ℕ → Type 0
LastAt b s none = Lacks b s
LastAt b s (some i) = (take i s ++ b ∷ drop (suc i) s ≡ s) × Lacks b (drop (suc i) s)

later-LastAt :
    (b c : ℕ) (s : Text) (o : Option ℕ)
    → LastAt b s o
    → LastAt b (c ∷ s) (later o (if has_prefix (c ∷ s) (b ∷ []) then some 0 else none))
unfolding has_prefix
later-LastAt b c s none h = ground (arith, has_prefix-nil s)
later-LastAt b c s (some i) h = (ap (λ (t : Text). c ∷ t) h.0, h.1)

pub last_index-LastAt : (b : ℕ) (s : Text) → LastAt b s (last_index s (b ∷ []))
unfolding last_index
last_index-LastAt b [] = tt
last_index-LastAt b (c ∷ s) = later-LastAt b c s (last_index s (b ∷ [])) (last_index-LastAt b s)

pub last_index-Lacks : (b : ℕ) (s : Text) → Lacks b s → last_index s (b ∷ []) ≡ none
unfolding last_index
last_index-Lacks b [] h = refl
last_index-Lacks b (c ∷ s) h = ground (arith, last_index-Lacks b s, has_prefix-nil s)

pub last_index-append :
    (b : ℕ) (p s : Text) → Lacks b s → last_index (p ++ b ∷ s) (b ∷ []) ≡ some (length p)
unfolding last_index
last_index-append b [] s h = ground (arith, last_index-Lacks b s h, has_prefix-nil s)
last_index-append b (c ∷ p) s h = ground (arith, last_index-append b p s h)

pub index-Lacks : (b : ℕ) (s : Text) → Lacks b s → index s (b ∷ []) ≡ none
unfolding index
index-Lacks b [] h = refl
index-Lacks b (c ∷ s) h = ground (arith, index-Lacks b s, has_prefix-nil s)

pub index-append : (b : ℕ) (p s : Text) → Lacks b p → index (p ++ b ∷ s) (b ∷ []) ≡ some (length p)
unfolding index
index-append b [] s h = ground (arith, has_prefix-nil s)
index-append b (c ∷ p) s h = ground (arith, index-append b p s)

split_from-first :
    (b : ℕ) (sep v t : Text)
    → Lacks b v
    → (ps : List Text) × (split_from (b ∷ sep) 0 (v ++ ((b ∷ sep) ++ t)) ≡ v ∷ ps)
unfolding split_from has_prefix
split_from-first b sep [] t h =
    (split_from (b ∷ sep) (length sep) (sep ++ t), ground (arith, has_prefix-append sep t))
split_from-first b sep (c ∷ v) t h =
    let (ps, e) = split_from-first b sep v t h.1 in (ps, ground (arith, e))

-- the first part is what stands before the separator, where its first byte stands nowhere
pub split-first :
    (b : ℕ) (sep v t : Text)
    → Lacks b v
    → (ps : List Text) × (split (v ++ ((b ∷ sep) ++ t)) (b ∷ sep) ≡ v ∷ ps)
unfolding split
split-first b sep v t h = split_from-first b sep v t h
