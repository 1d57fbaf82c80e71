-- ===== src/Config/Timestamp.antt =====
-- `ParseTimestamp` of internal/config/aggregate.go on numbers.
use liquidity_scope.Prelude.{
  ℕ, ◌+◌, ◌-◌, ◌*◌, ◌^◌, ◌<◌, ◌≡◌, refl, ◌≢◌, true, false, Option, some, [], ◌∷◌, arith, nat_eq,
  list_eq, pair_eq, ok, is_empty, lt→ltb,
}
use liquidity_scope.Prelude.Int.{ℤ}
use liquidity_scope.Text.{Text, trim_space}
use liquidity_scope.Text.Trim.{spaceless, trim_space-spaceless}
use liquidity_scope.Text.Decimal.{read_digits, read_nat, parse_uint, format_nat}
use liquidity_scope.Text.Decimal.RoundTrip.{read_digits-format_nat, format_nat-ne-nil}
use liquidity_scope.Config.{all_digits, is_numeric, parse_timestamp}

read_digits-all_digits : (n m : ℕ) (s : Text) → read_digits n s ≡ some m → all_digits s ≡ true
unfolding read_digits
read_digits-all_digits n m [] h = refl
read_digits-all_digits n m (c ∷ s) h =
    ground (arith, read_digits-all_digits (n * 10 + (c - 48)) m s)

all_digits-spaceless : (s : Text) → all_digits s ≡ true → spaceless s ≡ true
all_digits-spaceless [] h = refl
all_digits-spaceless (c ∷ s) h = ground (arith, all_digits-spaceless s)

number-is_numeric :
    (s : Text) (n : ℕ)
    → read_nat s ≡ some n
    → (is_numeric s ≡ true) × (is_empty (trim_space s) ≡ false)
unfolding is_numeric
number-is_numeric [] n h = cc
number-is_numeric (c ∷ s) n h =
    let digits = read_digits-all_digits 0 n (c ∷ s) h in
    (rw digits refl, rw (trim_space-spaceless (c ∷ s) (all_digits-spaceless (c ∷ s) digits)) refl)

read_nat-digits : (s : Text) (n : ℕ) → s ≢ [] → read_digits 0 s ≡ some n → read_nat s ≡ some n
read_nat-digits [] n ne h = absurd (ne refl)
read_nat-digits (c ∷ s) n ne h = h

-- A number below 2^64 that is written in decimal is read back as the timestamp, whatever time.Parse
-- makes of other texts.
pub parse_timestamp-format_nat :
    (parse_time : Text → Option ℤ) (n : ℕ)
    → n < 2 ^ 64
    → parse_timestamp parse_time (format_nat n) ≡ ok n
parse_timestamp-format_nat parse_time n h =
    let s = format_nat n in
    let reads : read_nat s ≡ some n =
      read_nat-digits s n (format_nat-ne-nil n) (read_digits-format_nat n) in
    let (numeric, full) = number-is_numeric s n reads in
    unfold parse_timestamp parse_uint in rw (full, numeric, reads, lt→ltb n (2 ^ 64) h) refl
