-- ===== src/GoNumbers.antt =====
-- `strconv.Atoi` and `sort.Ints` of Go's library. Integers of 64 bits are integers of the model in
-- their range.
pub mod Sorted
pub mod RoundTrip
use tierceron.Base.{
  ℕ, zero, suc, ◌/◌, ◌%◌, ◌+◌, ◌-◌, ◌*◌, ◌^◌, Bool, true, false, ◌||◌, List, [], ◌∷◌, ltb, ◌==◌,
  if◌then◌else◌, ℤ, pos, negsuc, ltb_ℤ,
}
use tierceron.GoStrings.{Text}

-- What `strconv.ParseUint` makes of digits: a number, or a syntax or a range error.
pub data Parsed : Type 0 where
  value : ℕ → Parsed
  syntax_error : Parsed
  range_error : Parsed

-- The loop of `ParseUint` in base 10: it ends at the first byte that is no digit, and at the first
-- digit that takes the number past 64 bits.
unfoldable pub parse_digits : ℕ → Text → Parsed
parse_digits n [] = value n
parse_digits n (c ∷ s) =
    let n' = n * 10 + (c - b'0') in
    let rest = parse_digits n' s in
    if ltb c b'0' || ltb b'9' c then syntax_error else if ltb n' (2 ^ 64) then rest else range_error

unfoldable pub parse_uint : Text → Parsed
unfolding parse_digits
parse_uint [] = syntax_error
parse_uint (c ∷ s) = parse_digits 0 (c ∷ s)

abbrev pub max_int : ℕ
max_int = 2 ^ 63 - 1

-- A value, and whether there is no error.
abbrev at_most : ℕ → ℤ → Parsed → (ℕ → ℤ) → ℤ × Bool
at_most top limit (value n) sign = if ltb top n then (limit, false) else (sign n, true)
at_most top limit syntax_error sign = (pos 0, false)
at_most top limit range_error sign = (limit, false)

abbrev negate : ℕ → ℤ
negate n = if n == 0 then pos 0 else negsuc (n - 1)

-- `strconv.Atoi`: out of range the value is the nearest number, and on other errors it is 0.
unfoldable pub atoi : Text → ℤ × Bool
unfolding parse_uint
atoi [] = (pos 0, false)
atoi (c ∷ s) =
    if c == b'-'
    then at_most (2 ^ 63) (negsuc max_int) (parse_uint s) negate
    else if c == b'+'
    then at_most max_int (pos max_int) (parse_uint s) pos
    else at_most max_int (pos max_int) (parse_uint (c ∷ s)) pos

unfoldable pub insert : ℤ → List ℤ → List ℤ
insert x [] = x ∷ []
insert x (y ∷ ys) = if ltb_ℤ y x then y ∷ insert x ys else x ∷ y ∷ ys

-- `sort.Ints`; a list has one sorted order, so any sort gives this result.
unfoldable pub sort_ints : List ℤ → List ℤ
unfolding insert
sort_ints [] = []
sort_ints (x ∷ xs) = insert x (sort_ints xs)

-- The digits of a positive number before the text `out`; `fuel` bounds how many there are.
unfoldable pub format_digits : ℕ → ℕ → Text → Text
format_digits zero n out = out
format_digits (suc fuel) n out =
    let rest = format_digits fuel (n / 10) ((b'0' + n % 10) ∷ out) in if n == 0 then out else rest

unfoldable pub format_uint : ℕ → Text
format_uint n = if n == 0 then b'0' ∷ [] else format_digits (suc n) n []

-- `strconv.Itoa`
unfoldable pub itoa : ℤ → Text
unfolding format_uint
itoa (pos n) = format_uint n
itoa (negsuc n) = b'-' ∷ format_uint (suc n)
