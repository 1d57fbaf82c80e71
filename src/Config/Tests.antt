-- ===== src/Config/Tests.antt =====
-- Configuration texts at concrete inputs.
use liquidity_scope.Prelude.{
  ◌-◌, ◌^◌, ◌≡◌, refl, false, none, some, [], ◌∷◌, arith, nat_eq, list_eq, pair_eq, ok, is_empty,
}
use liquidity_scope.Dex.Sample.{plain_eth}
use liquidity_scope.Prelude.Int.{negsuc}
use liquidity_scope.Text.{codes, trim_space, split, split_first}
use liquidity_scope.Text.Decimal.{format_nat}
use liquidity_scope.Dex.Library.{Ethereum}
use liquidity_scope.Indexer.Parse.{parse_addresses, parse_topic0}
use liquidity_scope.Config.{clean_strings, split_and_clean, parse_string_map, parse_timestamp}
use liquidity_scope.Config.Clean.{parse-clean_strings}
use liquidity_scope.Config.Timestamp.{parse_timestamp-format_nat}

test_split_and_clean : split_and_clean (codes " a,, b ") ≡ codes "a" ∷ codes "b" ∷ []
unfolding split_and_clean split trim_space
test_split_and_clean = refl

test_parse_string_map : parse_string_map (codes "a = 1=2,b,c=,a=3") ≡ (codes "a", codes "3") ∷ []
unfolding parse_string_map split split_first trim_space
test_parse_string_map = refl

test_parse_timestamp_before_1970 :
    parse_timestamp (λ _. some (negsuc 0)) (codes "1969-12-31T23:59:59Z") ≡ ok (2 ^ 64 - 1)
unfolding parse_timestamp trim_space
test_parse_timestamp_before_1970 = refl

-- Only addresses of one byte are taken for addresses.
abbrev short_eth : Ethereum
short_eth = record plain_eth { is_hex_address = λ t. elim t [ [] ↦ false | ◌∷◌ c s ↦ is_empty s ] }

parse-clean_strings_example :
    let items = codes " a" ∷ codes "" ∷ codes "b " ∷ [] in
    (parse_addresses short_eth (clean_strings items) ≡ ok (codes "a" ∷ codes "b" ∷ []))
    × (parse_topic0 short_eth (clean_strings items) ≡ parse_topic0 short_eth items)
unfolding parse_addresses trim_space
parse-clean_strings_example =
    parse-clean_strings short_eth (codes " a" ∷ codes "" ∷ codes "b " ∷ [])

parse_timestamp-format_nat_example :
    parse_timestamp (λ _. none) (codes "1700000000") ≡ ok 1700000000
unfolding format_nat
parse_timestamp-format_nat_example = parse_timestamp-format_nat (λ _. none) 1700000000 (omega arith)
