-- ===== src/GoStrings/Search.antt =====
-- Laws of prefixes, suffixes and substrings.
use tierceron.Base.{ℕ, ◌≡◌, refl, true, false, [], ◌∷◌, ◌++◌, arith, All, ◌≢◌}
use tierceron.GoStrings.{Text, has_prefix, has_suffix, contains, text_eq}
use tierceron.GoStrings.Equality.{text_eq_refl}

pub has_prefix-append : (p s : Text) → has_prefix (p ++ s) p ≡ true
unfolding has_prefix
has_prefix-append [] [] = refl
has_prefix-append [] (c ∷ s) = refl
has_prefix-append (c ∷ p) s = ground (arith, has_prefix-append p s)

-- every text has the empty prefix
pub has_prefix-nil : (s : Text) → has_prefix s [] ≡ true
unfolding has_prefix
has_prefix-nil [] = refl
has_prefix-nil (c ∷ s) = refl

-- a prefix shows what stands before the rest
pub prefix_split : (s p : Text) → has_prefix s p ≡ true → (r : Text) × (s ≡ p ++ r)
unfolding has_prefix
prefix_split [] [] h = ([], refl)
prefix_split [] (d ∷ p) h = cc
prefix_split (c ∷ s) [] h = (c ∷ s, refl)
prefix_split (c ∷ s) (d ∷ p) h =
    let (r, e) = prefix_split s p (ground arith) in (r, ground (arith, e))

pub has_suffix-append : (s t : Text) → has_suffix (s ++ t) t ≡ true
unfolding has_suffix
has_suffix-append [] [] = refl
has_suffix-append [] (c ∷ t) = ground (arith, text_eq_refl (c ∷ t))
has_suffix-append (c ∷ s) t = ground (arith, has_suffix-append s t)

pub contains-of_prefix : (s t : Text) → has_prefix s t ≡ true → contains s t ≡ true
unfolding contains
contains-of_prefix [] [] h = refl
contains-of_prefix [] (d ∷ t) h = cc
contains-of_prefix (c ∷ s) t h = ground arith

pub contains-append : (r t s : Text) → contains (r ++ t ++ s) t ≡ true
unfolding contains
contains-append [] t s = contains-of_prefix (t ++ s) t (has_prefix-append t s)
contains-append (c ∷ r) t s = ground (arith, contains-append r t s)

-- a byte that does not stand in a text
abbrev pub Lacks : ℕ → Text → Type 0
Lacks b = All (λ c. c ≢ b)

pub Lacks-of_contains : (s : Text) (b : ℕ) → contains s (b ∷ []) ≡ false → Lacks b s
unfolding contains
Lacks-of_contains [] b h = tt
Lacks-of_contains (c ∷ s) b h =
    (ground (arith, has_prefix-nil s), Lacks-of_contains s b (ground arith))

-- a text that lacks a byte has no suffix that begins with it
pub has_suffix-Lacks : (b : ℕ) (s t : Text) → Lacks b s → has_suffix s (b ∷ t) ≡ false
unfolding has_suffix text_eq
has_suffix-Lacks b [] t h = refl
has_suffix-Lacks b (c ∷ s) t h = ground (arith, has_suffix-Lacks b s t)
