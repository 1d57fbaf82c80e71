-- ===== src/Aggregate/Format.antt =====
-- internal/aggregate/helpers.go: amounts and rates as decimal texts. A `big.Rat` is a sign with a
-- numerator and a denominator that is not 0; lowest terms change no digit of `FloatString`.
use liquidity_scope.Prelude.{
  ℕ, ◌+◌, ◌-◌, ◌*◌, ◌/◌, ◌%◌, ◌^◌, Bool, true, false, ◌||◌, Option, none, some, List, [], ◌∷◌, ◌++◌,
  leb, ◌==◌, nat_eq, list_eq, pair_eq, if◌then◌else◌, length, replicate,
}
use liquidity_scope.Prelude.Int.{ℤ, abs, is_negative, is_zero}
use liquidity_scope.Text.{Text, codes, split_first}
use liquidity_scope.Text.Decimal.{read_digits, read_nat, format_nat, format_int}

pub record Rat : Type 0 where
  pub negative : Bool
  pub num : ℕ
  pub den : ℕ

-- The whole part and the fraction in units of 10^-prec, rounded to the nearest, halves up.
unfoldable pub round_parts : ℕ → ℕ → ℕ → ℕ × ℕ
round_parts num den prec =
    let whole = num / den in
    let scaled = num % den * 10 ^ prec in
    let down = scaled / den in
    let twice = scaled % den + scaled % den in
    if leb den twice
    then (if leb (10 ^ prec) (down + 1)
        then (whole + 1, down + 1 - 10 ^ prec)
        else (whole, down + 1))
    else (whole, down)

-- Zeros in front, up to `width` digits.
unfoldable pub pad : ℕ → Text → Text
pad width s = replicate (width - length s) b'0' ++ s

-- `FloatString(prec)` of a rational that is not negative.
unfoldable pub digits_of : ℕ → ℕ → ℕ → Text
unfolding round_parts pad format_nat
digits_of num den prec =
    let (whole, fraction) = round_parts num den prec in
    if prec == 0
    then format_nat whole
    else format_nat whole ++ b'.' ∷ pad prec (format_nat fraction)

-- `FloatString(prec)`
unfoldable pub float_string : Rat → ℕ → Text
unfolding digits_of
float_string r prec =
    if r.negative then b'-' ∷ digits_of r.num r.den prec else digits_of r.num r.den prec

-- `formatTokenAmount`
unfoldable pub format_token_amount : Option ℤ → ℕ → Text
unfolding digits_of format_int
format_token_amount none decimals = codes "0"
format_token_amount (some value) decimals =
    let text = digits_of (abs value) (10 ^ decimals) decimals in
    if decimals == 0 then format_int value else if is_negative value then b'-' ∷ text else text

abbrev pub ratio_scale : ℕ
ratio_scale = 18

abbrev frac : ℤ → ℤ → Rat
frac a b = record {
  negative = if is_negative a then (if is_negative b then false else true) else is_negative b;
  num = abs a;
  den = abs b;
}

-- `computeRateFromInt`; an empty text says that there is no rate.
unfoldable pub compute_rate_from_int : Option ℤ → Option ℤ → Text
unfolding float_string
compute_rate_from_int none tvl = []
compute_rate_from_int (some fee) none = []
compute_rate_from_int (some fee) (some tvl) =
    if is_zero fee || is_zero tvl then [] else float_string (frac fee tvl) ratio_scale

abbrev non_empty : Text → Option Text
non_empty [] = none
non_empty (c ∷ s) = some (c ∷ s)

-- `computeFeeRates`
unfoldable pub compute_fee_rates :
    Option ℤ → Option ℤ → Option ℤ → Option ℤ → Option Text × Option Text
unfolding compute_rate_from_int
compute_fee_rates fee0 fee1 tvl0 tvl1 =
    (non_empty (compute_rate_from_int fee0 tvl0), non_empty (compute_rate_from_int fee1 tvl1))

abbrev fraction_of : Bool → Text → List Text → Option Rat
fraction_of negative whole [] = elim (read_nat whole) [
  | none ↦ none
  | some n ↦ some (record { negative = negative; num = n; den = 1 })
]
fraction_of negative whole (fraction ∷ _) = elim (read_digits 0 (whole ++ fraction)) [
  | none ↦ none
  | some n ↦ some (record { negative = negative; num = n; den = 10 ^ length fraction })
]

-- `SetString` of `big.Rat`, on the decimal texts that `FloatString` prints.
unfoldable pub rat_of_text : Text → Option Rat
unfolding read_digits split_first
rat_of_text [] = none
rat_of_text (c ∷ s) =
    if c == b'-'
    then (let (whole, rest) = split_first b'.' s in fraction_of true whole rest)
    else (let (whole, rest) = split_first b'.' (c ∷ s) in fraction_of false whole rest)

abbrev pub year_seconds : ℕ
year_seconds = 365 * 24 * 3600

-- The rate of the one token that has one; none if both or neither have one.
abbrev pub select_rate : Option Text → Option Text → Option Text
select_rate (some rate) none = some rate
select_rate none (some rate) = some rate
select_rate none none = none
select_rate (some _) (some _) = none

-- `computeAPR`, for windows of less than 2^63 seconds: below that the conversion to int64 changes
-- nothing.
unfoldable pub compute_apr : Option Text → Option Text → ℕ → Option Text
unfolding rat_of_text float_string
compute_apr fee_rate0 fee_rate1 window_seconds =
    if window_seconds == 0 then none else (elim (select_rate fee_rate0 fee_rate1) [
      | none ↦ none
      | some selected ↦ elim (rat_of_text selected) [
        | none ↦ none
        | some r ↦
            let apr : Rat = record r { num = r.num * year_seconds; den = r.den * window_seconds } in
            some (float_string apr ratio_scale)
      ]
    ])
