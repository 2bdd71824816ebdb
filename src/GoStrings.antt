-- ===== src/GoStrings.antt =====
-- The functions of Go's `strings` package that the source calls, over the bytes of a string.
-- `Index` and `LastIndex` return an option where Go returns -1. `Split` and `ReplaceAll` are given
-- separators and old strings that are not empty, as in every call of the source.
pub mod Equality
pub mod Search
pub mod Parts
pub mod Split
pub mod Replace
use Prim.Native.Char.{code}
use tierceron.Base.{
  ℕ, zero, suc, ◌+◌, ◌-◌, String, ◌||◌, ◌&&◌, Bool, true, false, Option, none, some, List, [], ◌∷◌,
  ◌++◌, length, ◌==◌, if◌then◌else◌, take, drop,
}

abbrev pub Text : Type 0
Text = List ℕ

-- The bytes of an ASCII literal.
abbrev pub codes : String → Text
codes String.[] = []
codes (String.◌∷◌ c s) = code c ∷ codes s

-- `==` on strings
unfoldable pub text_eq : Text → Text → Bool
text_eq [] [] = true
text_eq [] (d ∷ t) = false
text_eq (c ∷ s) [] = false
text_eq (c ∷ s) (d ∷ t) = c == d && text_eq s t

-- `len(s) == 0`
abbrev pub is_empty {ℓ} : {A : Type ℓ} → List A → Bool
is_empty [] = true
is_empty (_ ∷ _) = false

-- `strings.HasPrefix(s, prefix)`
unfoldable pub has_prefix : Text → Text → Bool
has_prefix [] [] = true
has_prefix [] (p ∷ ps) = false
has_prefix (c ∷ s) [] = true
has_prefix (c ∷ s) (p ∷ ps) = c == p && has_prefix s ps

-- `strings.HasSuffix(s, suffix)`
unfoldable pub has_suffix : Text → Text → Bool
unfolding text_eq
has_suffix [] suffix = is_empty suffix
has_suffix (c ∷ s) suffix = text_eq (c ∷ s) suffix || has_suffix s suffix

-- `strings.Contains(s, substr)`
unfoldable pub contains : Text → Text → Bool
unfolding has_prefix
contains [] substr = is_empty substr
contains (c ∷ s) substr = has_prefix (c ∷ s) substr || contains s substr

abbrev pub shift : Option ℕ → Option ℕ
shift none = none
shift (some i) = some (suc i)

-- `strings.Index(s, substr)`
unfoldable pub index : Text → Text → Option ℕ
unfolding has_prefix
index [] substr = if is_empty substr then some 0 else none
index (c ∷ s) substr = if has_prefix (c ∷ s) substr then some 0 else shift (index s substr)

abbrev pub later : Option ℕ → Option ℕ → Option ℕ
later none here = here
later (some i) here = some (suc i)

-- `strings.LastIndex(s, substr)`
unfoldable pub last_index : Text → Text → Option ℕ
unfolding has_prefix
last_index [] substr = if is_empty substr then some 0 else none
last_index (c ∷ s) substr =
    later (last_index s substr) (if has_prefix (c ∷ s) substr then some 0 else none)

abbrev pub cons_head : ℕ → List Text → List Text
cons_head c [] = (c ∷ []) ∷ []
cons_head c (p ∷ ps) = (c ∷ p) ∷ ps

-- `skip` counts the bytes of a separator that are still to be passed over.
split_from : Text → ℕ → Text → List Text
split_from sep skip [] = [] ∷ []
split_from sep (suc k) (c ∷ s) = split_from sep k s
split_from sep zero (c ∷ s) = elim (has_prefix (c ∷ s) sep) [
  | true ↦ [] ∷ split_from sep (length sep - 1) s
  | false ↦ cons_head c (split_from sep 0 s)
]

-- `strings.Split(s, sep)`
unfoldable pub split : Text → Text → List Text
unfolding split_from has_prefix
split s sep = split_from sep 0 s

replace_from : Text → Text → ℕ → Text → Text
replace_from old new skip [] = []
replace_from old new (suc k) (c ∷ s) = replace_from old new k s
replace_from old new zero (c ∷ s) = elim (has_prefix (c ∷ s) old) [
  | true ↦ new ++ replace_from old new (length old - 1) s
  | false ↦ c ∷ replace_from old new 0 s
]

-- `strings.ReplaceAll(s, old, new)`
unfoldable pub replace_all : Text → Text → Text → Text
unfolding replace_from has_prefix
replace_all s old new = replace_from old new 0 s

-- `strings.TrimPrefix(s, prefix)`
unfoldable pub trim_prefix : Text → Text → Text
unfolding has_prefix
trim_prefix s prefix = if has_prefix s prefix then drop (length prefix) s else s

-- `strings.TrimSuffix(s, suffix)`
unfoldable pub trim_suffix : Text → Text → Text
unfolding has_suffix
trim_suffix s suffix = if has_suffix s suffix then take (length s - length suffix) s else s

-- `strings.SplitAfterN(s, sep, 2)` for a separator of one byte: the text up to and with the first
-- separator, and the rest where there is a separator.
unfoldable pub split_after : Text → ℕ → Text × Option Text
split_after [] sep = ([], none)
split_after (c ∷ s) sep =
    let (head, rest) = split_after s sep in if c == sep then (c ∷ [], some s) else (c ∷ head, rest)

-- `strings.Join(parts, sep)`
unfoldable pub join : List Text → Text → Text
join [] sep = []
join (p ∷ []) sep = p
join (p ∷ q ∷ ps) sep = p ++ (sep ++ join (q ∷ ps) sep)
