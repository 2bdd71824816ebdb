-- ===== src/GoStrings/Parts.antt =====
-- Laws of the functions that take texts apart and put them together.
use tierceron.Base.{
  ℕ, ◌≡◌, ◌≢◌, refl, true, false, Bool, [], ◌∷◌, ◌++◌, arith, ◌==◌, if◌then◌else◌, All-append,
  Option, none, some,
}
use tierceron.GoStrings.{Text, has_prefix, replace_from, replace_all, split_after}
use tierceron.GoStrings.Search.{Lacks, has_prefix-nil}

-- a text without one byte
abbrev pub remove : ℕ → Text → Text
remove b [] = []
remove b (c ∷ s) = let rest = remove b s in if c == b then rest else c ∷ rest

replace_from-remove : (b : ℕ) (s : Text) → replace_from (b ∷ []) [] 0 s ≡ remove b s
unfolding replace_from has_prefix
replace_from-remove b [] = refl
replace_from-remove b (c ∷ s) = ground (arith, replace_from-remove b s, has_prefix-nil s)

-- replacing one byte by nothing drops it
pub replace_all-remove : (b : ℕ) (s : Text) → replace_all s (b ∷ []) [] ≡ remove b s
unfolding replace_all
replace_all-remove b s = replace_from-remove b s

pub remove-Lacks : (b : ℕ) (s : Text) → Lacks b (remove b s)
remove-Lacks b [] = tt
remove-Lacks b (c ∷ s) = ground (arith, remove-Lacks b s)

pub Lacks-remove : (a b : ℕ) (s : Text) → Lacks a s → Lacks a (remove b s)
Lacks-remove a b [] h = tt
Lacks-remove a b (c ∷ s) h = ground (arith, Lacks-remove a b s)

abbrev pub or_empty : Option Text → Text
or_empty none = []
or_empty (some t) = t

-- the two pieces of `SplitAfterN` spell the text
pub split_after-append :
    (s : Text) (sep : ℕ) → (split_after s sep).0 ++ or_empty (split_after s sep).1 ≡ s
unfolding split_after
split_after-append [] sep = refl
split_after-append (c ∷ s) sep = ground (arith, split_after-append s sep)

pub split_after-Lacks : (s : Text) (sep : ℕ) → Lacks sep s → split_after s sep ≡ (s, none)
unfolding split_after
split_after-Lacks [] sep h = refl
split_after-Lacks (c ∷ s) sep h = ground (arith, split_after-Lacks s sep)

pub split_after_sep :
    (s r : Text) (sep : ℕ) → Lacks sep s → split_after (s ++ sep ∷ r) sep ≡ (s ++ sep ∷ [], some r)
unfolding split_after
split_after_sep [] r sep h = ground arith
split_after_sep (c ∷ s) r sep h = ground (arith, split_after_sep s r sep)

-- nothing is replaced in a text without the first byte of the old string
replace_from-Lacks : (b : ℕ) (old new s : Text) → Lacks b s → replace_from (b ∷ old) new 0 s ≡ s
unfolding replace_from has_prefix
replace_from-Lacks b old new [] h = refl
replace_from-Lacks b old new (c ∷ s) h = ground (arith, replace_from-Lacks b old new s)

pub replace_all-Lacks : (b : ℕ) (old new s : Text) → Lacks b s → replace_all s (b ∷ old) new ≡ s
unfolding replace_all
replace_all-Lacks b old new s h = replace_from-Lacks b old new s h

-- a text with a new text for each byte `b`
abbrev pub substitute : ℕ → Text → Text → Text
substitute b new [] = []
substitute b new (c ∷ s) = let rest = substitute b new s in if c == b then new ++ rest else c ∷ rest

replace_from-substitute :
    (b : ℕ) (new s : Text) → replace_from (b ∷ []) new 0 s ≡ substitute b new s
unfolding replace_from has_prefix
replace_from-substitute b new [] = refl
replace_from-substitute b new (c ∷ s) =
    ground (arith, replace_from-substitute b new s, has_prefix-nil s)

pub replace_all-substitute :
    (b : ℕ) (new s : Text) → replace_all s (b ∷ []) new ≡ substitute b new s
unfolding replace_all
replace_all-substitute b new s = replace_from-substitute b new s

substituted :
    (b c : ℕ) (new rest : Text) (here : Bool)
    → (c == b) ≡ here
    → Lacks b new
    → Lacks b rest
    → Lacks b (if here then new ++ rest else c ∷ rest)
substituted b c new rest true e h k = All-append (λ x. x ≢ b) new rest h k
substituted b c new rest false e h k = (ground arith, k)

substitute-Lacks : (b : ℕ) (new s : Text) → Lacks b new → Lacks b (substitute b new s)
substitute-Lacks b new [] h = tt
substitute-Lacks b new (c ∷ s) h =
    substituted b c new (substitute b new s) (c == b) refl h (substitute-Lacks b new s h)

-- a byte that is replaced by a text without it does not stand in the result
pub Lacks-replace_all : (b : ℕ) (new s : Text) → Lacks b new → Lacks b (replace_all s (b ∷ []) new)
Lacks-replace_all b new s h = rw replace_all-substitute (substitute-Lacks b new s h)
