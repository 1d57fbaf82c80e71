-- ===== src/Config/Clean.antt =====
-- `cleanStrings` of internal/config/config.go, and the parsers that read what it leaves.
use liquidity_scope.Prelude.{
  ◌≡◌, refl, inl, inr, List, [], ◌∷◌, nat_eq, list_eq, pair_eq, Bool-cases, Option-cases, is_empty,
}
use liquidity_scope.Text.{Text, trim_space}
use liquidity_scope.Text.Trim.{trim_space_idem}
use liquidity_scope.Dex.Library.{Ethereum}
use liquidity_scope.Indexer.Parse.{parse_addresses, parse_topic0}
use liquidity_scope.Config.{clean_strings}

parse_addresses-clean_strings :
    (eth : Ethereum) (items : List Text)
    → parse_addresses eth (clean_strings items) ≡ parse_addresses eth items
unfolding clean_strings parse_addresses
parse_addresses-clean_strings eth [] = refl
parse_addresses-clean_strings eth (item ∷ items) = elim (Bool-cases (is_empty (trim_space item))) [
  | inl e ↦ rw e (parse_addresses-clean_strings eth items)
  | inr e ↦ rw (e, trim_space_idem item, e, parse_addresses-clean_strings eth items) refl
]

parse_topic0-clean_strings :
    (eth : Ethereum) (items : List Text)
    → parse_topic0 eth (clean_strings items) ≡ parse_topic0 eth items
unfolding clean_strings parse_topic0
parse_topic0-clean_strings eth [] = refl
parse_topic0-clean_strings eth (item ∷ items) =
    let rest = parse_topic0-clean_strings eth items in
    elim (Bool-cases (is_empty (trim_space item))) [
      | inl e ↦ rw e rest
      | inr e ↦ elim (Option-cases (eth.hex_decode (trim_space item))) [
        | inl f ↦ rw (e, trim_space_idem item, e, f) refl
        | inr (payload, f) ↦ rw (e, trim_space_idem item, e, f, rest) refl
      ]
    ]

-- The parsers of addresses and of topics give the same, errors included, for the cleaned list as for
-- the list as it was written.
pub parse-clean_strings :
    (eth : Ethereum) (items : List Text)
    → (parse_addresses eth (clean_strings items) ≡ parse_addresses eth items)
      × (parse_topic0 eth (clean_strings items) ≡ parse_topic0 eth items)
parse-clean_strings eth items =
    (parse_addresses-clean_strings eth items, parse_topic0-clean_strings eth items)
