-- ===== src/GoStrings/Replace.antt =====
-- Laws of `ReplaceAll` on a text made of pieces.
use tierceron.Base.{
  ℕ, ◌≡◌, ◌≢◌, refl, false, [], ◌∷◌, ◌++◌, arith, Bool-cases, inl, inr, length, ◌==◌,
}
use tierceron.GoStrings.{Text, has_prefix, replace_all, replace_from}
use tierceron.GoStrings.Search.{Lacks}

-- a whole first part is no other whole first part
pub has_prefix-other :
    (b : ℕ) (p e r : Text)
    → Lacks b p
    → Lacks b e
    → e ≢ p
    → has_prefix (e ++ b ∷ r) (p ++ b ∷ []) ≡ false
unfolding has_prefix
has_prefix-other b [] [] r h k n = absurd (n refl)
has_prefix-other b (c ∷ p) [] r h k n = ground arith
has_prefix-other b [] (d ∷ e) r h k n = ground arith
has_prefix-other b (c ∷ p) (d ∷ e) r h k n = elim (Bool-cases (d == c)) [
  | inl q ↦ ground (arith, has_prefix-other b p e r h.1 k.1 (λ t. n (ground (arith, q, t))))
  | inr q ↦ ground arith
]

replace_from-pass :
    (b : ℕ) (old new s t : Text)
    → Lacks b s
    → replace_from (b ∷ old) new 0 (s ++ t) ≡ s ++ replace_from (b ∷ old) new 0 t
unfolding replace_from has_prefix
replace_from-pass b old new [] t h = refl
replace_from-pass b old new (c ∷ s) t h = ground (arith, replace_from-pass b old new s t)

-- a piece without the first byte of the old text stays
pub replace_all-pass :
    (b : ℕ) (old new s t : Text)
    → Lacks b s
    → replace_all (s ++ t) (b ∷ old) new ≡ s ++ replace_all t (b ∷ old) new
unfolding replace_all
replace_all-pass b old new s t h = replace_from-pass b old new s t h

-- a byte at which the old text does not stand stays
pub replace_all-miss :
    (c : ℕ) (old new t : Text)
    → has_prefix (c ∷ t) old ≡ false
    → replace_all (c ∷ t) old new ≡ c ∷ replace_all t old new
unfolding replace_all replace_from
replace_all-miss c old new t h = ground arith

-- a first byte stays that the old and the new text begin with
pub replace_all-head :
    (b : ℕ) (old new t : Text) → (r : Text) × (replace_all (b ∷ t) (b ∷ old) (b ∷ new) ≡ b ∷ r)
unfolding replace_all replace_from
replace_all-head b old new t = elim (Bool-cases (has_prefix (b ∷ t) (b ∷ old))) [
  | inl e ↦ (new ++ replace_from (b ∷ old) (b ∷ new) (length old) t, ground arith)
  | inr e ↦ (replace_from (b ∷ old) (b ∷ new) 0 t, ground arith)
]
