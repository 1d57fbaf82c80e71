-- ===== src/Text/Decimal.antt =====
-- Decimal numbers: `strconv.ParseUint(s, 10, 64)`, and `SetString(s, 10)` and `String` of
-- `big.Int`.
pub mod RoundTrip
use liquidity_scope.Prelude.{
  ℕ, zero, suc, ◌+◌, ◌-◌, ◌*◌, ◌/◌, ◌%◌, ◌^◌, Bool, true, false, ◌&&◌, Option, none, some, List, [],
  ◌∷◌, leb, ltb, ◌==◌, nat_eq, if◌then◌else◌,
}
use liquidity_scope.Prelude.Int.{ℤ, pos, negsuc, neg_ℕ}
use liquidity_scope.Text.{Text}

abbrev pub is_digit : ℕ → Bool
is_digit c = leb b'0' c && leb c b'9'

-- The number that the digits spell behind `n`; `none` if a byte is no digit.
unfoldable pub read_digits : ℕ → Text → Option ℕ
read_digits n [] = some n
read_digits n (c ∷ s) =
    let rest = read_digits (n * 10 + (c - 48)) s in if is_digit c then rest else none

abbrev pub read_nat : Text → Option ℕ
read_nat [] = none
read_nat (c ∷ s) = read_digits 0 (c ∷ s)

-- `ParseUint(s, 10, 64)`: no sign, at least one digit, and a value below 2^64.
unfoldable pub parse_uint : Text → Option ℕ
unfolding read_digits
parse_uint s = elim (read_nat s) [ none ↦ none | some n ↦ if ltb n (2 ^ 64) then some n else none ]

abbrev negate : Option ℕ → Option ℤ
negate none = none
negate (some n) = some (neg_ℕ n)

abbrev positive : Option ℕ → Option ℤ
positive none = none
positive (some n) = some (pos n)

-- `SetString(s, 10)` of `big.Int`: one sign at most, then digits.
unfoldable pub set_string : Text → Option ℤ
unfolding read_digits
set_string [] = none
set_string (c ∷ s) =
    if c == b'-'
    then negate (read_nat s)
    else if c == b'+'
    then positive (read_nat s)
    else positive (read_nat (c ∷ s))

-- The digits of `n` in front of `out`, last digit first, with fuel for the digits.
emit : ℕ → ℕ → Text → Text
emit zero n out = out
emit (suc fuel) n out =
    let rest = emit fuel (n / 10) ((b'0' + n % 10) ∷ out) in if n == 0 then out else rest

-- The digits of a natural number; `n` is fuel enough, since dividing by ten makes it smaller.
unfoldable pub format_nat : ℕ → Text
unfolding emit
format_nat n = if n == 0 then b'0' ∷ [] else emit n n []

-- `String` of `big.Int`
unfoldable pub format_int : ℤ → Text
unfolding format_nat
format_int (pos n) = format_nat n
format_int (negsuc n) = b'-' ∷ format_nat (suc n)
