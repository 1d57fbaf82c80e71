-- ===== src/Config.antt =====
-- internal/config: lists, maps and timestamps from texts. `time.Parse` is a parameter.
pub mod Load
pub mod Clean
pub mod Timestamp
mod Tests
use liquidity_scope.Prelude.{
  ℕ, zero, suc, ◌+◌, ◌-◌, ◌*◌, ◌/◌, ◌%◌, ◌^◌, ◌≤◌, ◌<◌, ◌≡◌, refl, sym, ap, ◌∙◌, subst, ◌≢◌, ◌↔◌,
  ◌⊎◌, inl, inr, Bool, true, false, not, ◌&&◌, ◌||◌, Option, none, some, List, [], ◌∷◌, ◌++◌, map,
  append-nil, append_assoc, arith, ltb, leb, ◌==◌, Eq, nat_eq, list_eq, pair_eq, beq_refl,
  if◌then◌else◌, Result, ok, err, is_ok, Bool-cases, Option-cases, length, is_empty, All, replicate,
  ne→beq_false, le→leb, lt→leb_false, le→ltb_false,
}
use liquidity_scope.Prelude.Int.{ℤ, pos, negsuc}
use liquidity_scope.Prelude.Dict
use liquidity_scope.Prelude.Dict.{Dict}
use liquidity_scope.Errors.{Error, bad_number, bad_time}
use liquidity_scope.Text.{Text, trim_space, split, split_first}
use liquidity_scope.Text.Decimal.{is_digit, parse_uint}

-- `cleanStrings`
unfoldable pub clean_strings : List Text → List Text
clean_strings [] = []
clean_strings (item ∷ items) =
    let rest = clean_strings items in
    if is_empty (trim_space item) then rest else trim_space item ∷ rest

-- `splitAndClean`
unfoldable pub split_and_clean : Text → List Text
unfolding clean_strings
split_and_clean input = if is_empty input then [] else clean_strings (split b',' input)

-- The body of the loop of `parseStringMap`, on the parts of a pair.
abbrev pub set_pair : Text × List Text → Dict Text Text → Dict Text Text
set_pair (key, []) out = out
set_pair (key, value ∷ _) out =
    if is_empty (trim_space key) || is_empty (trim_space value)
    then out
    else Dict.insert (trim_space key) (trim_space value) out

abbrev pub set_pairs : List Text → Dict Text Text → Dict Text Text
set_pairs [] out = out
set_pairs (pair ∷ pairs) out = set_pairs pairs (set_pair (split_first b'=' pair) out)

-- `parseStringMap`
unfoldable pub parse_string_map : Text → Dict Text Text
parse_string_map input = if is_empty (trim_space input) then [] else set_pairs (split b',' input) []

abbrev pub all_digits : Text → Bool
all_digits [] = true
all_digits (c ∷ s) = is_digit c && all_digits s

-- `isNumeric`
unfoldable pub is_numeric : Text → Bool
is_numeric input = all_digits input && not (is_empty input)

-- The conversion of an int64 to uint64.
abbrev pub to_uint64 : ℤ → ℕ
to_uint64 (pos n) = n % 2 ^ 64
to_uint64 (negsuc n) = 2 ^ 64 - 1 - n % 2 ^ 64

module _ (parse_time : Text → Option ℤ) where
  -- `ParseTimestamp`
  unfoldable pub parse_timestamp : Text → Result Error ℕ
  unfolding is_numeric parse_uint
  parse_timestamp input =
      if is_empty (trim_space input)
      then ok 0
      else if is_numeric input
      then (elim (parse_uint input) [ none ↦ err bad_number | some n ↦ ok n ])
      else (elim (parse_time input) [ none ↦ err bad_time | some z ↦ ok (to_uint64 z) ])
