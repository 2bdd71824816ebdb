-- ===== src/GoNumbers/RoundTrip.antt =====
-- `Atoi` reads what `Itoa` prints.
use tierceron.Base.{
  ℕ, zero, suc, ◌+◌, ◌/◌, ◌%◌, ◌^◌, ◌≤◌, ◌<◌, ◌≡◌, true, [], ◌∷◌, arith, ℤ, pos, negsuc,
}
use tierceron.GoStrings.{Text}
use tierceron.GoNumbers.{value, parse_digits, atoi, format_digits, format_uint, itoa, max_int}

parse_last :
    (n : ℕ) (out : Text)
    → n < 2 ^ 64
    → parse_digits (n / 10) ((b'0' + n % 10) ∷ out) ≡ parse_digits n out
unfolding parse_digits
parse_last n out h = ground arith

parse-format_digits :
    (fuel n : ℕ) (out : Text)
    → n < fuel
    → n < 2 ^ 64
    → parse_digits 0 (format_digits fuel n out) ≡ parse_digits n out
unfolding format_digits
parse-format_digits zero n out h k = absurd (omega arith)
parse-format_digits (suc fuel) n out h k =
    ground (arith, parse_last n out, parse-format_digits fuel (n / 10) ((b'0' + n % 10) ∷ out))

-- a number's print begins with a digit
abbrev pub FirstDigit : Text → Type 0
FirstDigit [] = ⊥
FirstDigit (c ∷ s) = (b'0' ≤ c) × (c ≤ b'9')

format_digits-FirstDigit :
    (fuel n : ℕ) (out : Text)
    → n < fuel
    → (n ≡ 0 → FirstDigit out)
    → FirstDigit (format_digits fuel n out)
unfolding format_digits
format_digits-FirstDigit zero n out h k = absurd (omega arith)
format_digits-FirstDigit (suc fuel) n out h k =
    ground (arith, format_digits-FirstDigit fuel (n / 10) ((b'0' + n % 10) ∷ out))

format_uint-suc : (n : ℕ) → format_uint (suc n) ≡ format_digits (suc (suc n)) (suc n) []
unfolding format_uint
format_uint-suc n = ground arith

parse-format_uint :
    (n : ℕ) → n < 2 ^ 64 → (parse_digits 0 (format_uint n) ≡ value n) × FirstDigit (format_uint n)
unfolding parse_digits
parse-format_uint zero h = unfold format_uint in ground arith
parse-format_uint (suc n) h = rw format_uint-suc (
  parse-format_digits (suc (suc n)) (suc n) [] (omega arith) h,
  format_digits-FirstDigit (suc (suc n)) (suc n) [] (omega arith) (λ e. absurd (omega arith)),
)

atoi-digits :
    (s : Text) (n : ℕ)
    → n ≤ max_int
    → parse_digits 0 s ≡ value n
    → FirstDigit s
    → atoi s ≡ (pos n, true)
unfolding atoi
atoi-digits [] n h p d = elim d [ ]
atoi-digits (c ∷ s) n h p d = ground arith

atoi-minus :
    (s : Text) (n : ℕ)
    → n ≤ max_int
    → parse_digits 0 s ≡ value (suc n)
    → FirstDigit s
    → atoi (b'-' ∷ s) ≡ (negsuc n, true)
unfolding atoi
atoi-minus [] n h p d = elim d [ ]
atoi-minus (c ∷ s) n h p d = ground arith

abbrev pub InInt64 : ℤ → Type 0
InInt64 (pos n) = n ≤ max_int
InInt64 (negsuc n) = n ≤ max_int

-- `Atoi` gives back, without an error, every integer of 64 bits that `Itoa` prints.
pub atoi-itoa : (a : ℤ) → InInt64 a → atoi (itoa a) ≡ (a, true)
unfolding itoa
atoi-itoa (pos n) h =
    let (parsed, first) = parse-format_uint n (omega arith) in
    atoi-digits (format_uint n) n h parsed first
atoi-itoa (negsuc n) h =
    let (parsed, first) = parse-format_uint (suc n) (omega arith) in
    atoi-minus (format_uint (suc n)) n h parsed first
