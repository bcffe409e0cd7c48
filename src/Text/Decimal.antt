-- ===== src/Text/Decimal.antt =====
-- `strconv.Itoa` of a count and `strconv.Atoi`.
pub mod RoundTrip
use Prim.Native.Char.{code}
use Prim.Native.String.{◌++◌ as concat}
use fyredocs_backend.Prelude.{
  ℕ, zero, suc, ◌+◌, ◌-◌, ◌*◌, ◌/◌, ◌%◌, ◌^◌, ◌≡◌, refl, Bool, ◌&&◌, Option, none, some, String,
  leb, ltb, ◌==◌, ◌=ₛ◌, if◌then◌else◌,
}
use fyredocs_backend.Prelude.Int.{ℤ, pos, negsuc}
use fyredocs_backend.Text.Space.{char_of}

-- The digits of n in front of `out`; n has at most `fuel` digits.
print_digits : ℕ → ℕ → String → String
unfolding char_of
print_digits zero n out = out
print_digits (suc fuel) n out =
    let out' = String.◌∷◌ (char_of "0123456789" (n % 10)) out in
    let rest = print_digits fuel (n / 10) out' in if n / 10 == 0 then out' else rest

-- `strconv.Itoa` of a number below 10 ^ 20, which every int64 is.
unfoldable pub itoa : ℕ → String
unfolding print_digits
itoa n = print_digits 20 n ""

-- `strconv.Itoa` of an int64.
unfoldable pub itoa_int : ℤ → String
unfolding itoa
itoa_int (pos n) = itoa n
itoa_int (negsuc n) = concat "-" (itoa (suc n))

is_digit : ℕ → Bool
is_digit c = leb b'0' c && leb c b'9'

scan_digits : String → ℕ → Option ℕ
unfolding is_digit
scan_digits String.[] n = some n
scan_digits (String.◌∷◌ c s) n =
    let rest = scan_digits s (n * 10 + (code c - b'0')) in if is_digit (code c) then rest else none

-- One digit at least.
unsigned : String → Option ℕ
unfolding scan_digits
unsigned s = if s =ₛ "" then none else scan_digits s 0

positive : Option ℕ → Option ℤ
positive none = none
positive (some n) = if ltb n (2 ^ 63) then some (pos n) else none

negative : Option ℕ → Option ℤ
negative none = none
negative (some zero) = some (pos 0)
negative (some (suc n)) = if ltb n (2 ^ 63) then some (negsuc n) else none

-- `strconv.Atoi`: an optional sign and digits, within the range of an int64.
unfoldable pub atoi : String → Option ℤ
unfolding unsigned positive negative
atoi String.[] = none
atoi (String.◌∷◌ c s) =
    if code c == b'-'
    then negative (unsigned s)
    else if code c == b'+'
    then positive (unsigned s)
    else positive (unsigned (String.◌∷◌ c s))

prints : itoa 1048 ≡ "1048"
unfolding itoa
prints = refl

parses : atoi "+0123" ≡ some (pos 123)
unfolding atoi
parses = refl

parses_negative : atoi "-7" ≡ some (negsuc 6)
unfolding atoi
parses_negative = refl

too_large : atoi "9223372036854775808" ≡ none
unfolding atoi
too_large = refl
