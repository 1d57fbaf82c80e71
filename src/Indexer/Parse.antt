-- ===== src/Indexer/Parse.antt =====
-- internal/indexer/parse.go: the address and topic filters of the command line.
use liquidity_scope.Prelude.{
  ◌>>=◌, not, none, some, List, [], ◌∷◌, ◌==◌, nat_eq, list_eq, pair_eq, if◌then◌else◌, Result, ok,
  err, length, is_empty,
}
use liquidity_scope.Errors.{Error, invalid_address, invalid_topic0, invalid_topic0_length}
use liquidity_scope.Text.{Text, trim_space}
use liquidity_scope.Chain.{Address, Hash}
use liquidity_scope.Dex.Library.{Ethereum}

module _ (eth : Ethereum) where
  -- `ParseAddresses`
  unfoldable pub parse_addresses : List Text → Result Error (List Address)
  parse_addresses [] = ok []
  parse_addresses (raw ∷ inputs) =
      let input = trim_space raw in
      let rest = parse_addresses inputs in
      if is_empty input
      then rest
      else if not (eth.is_hex_address input)
      then err invalid_address
      else (rest >>= λ addresses. ok (eth.hex_to_address input ∷ addresses))

  -- `ParseTopic0`
  unfoldable pub parse_topic0 : List Text → Result Error (List Hash)
  parse_topic0 [] = ok []
  parse_topic0 (raw ∷ inputs) =
      let input = trim_space raw in
      let rest = parse_topic0 inputs in
      if is_empty input then rest else (elim (eth.hex_decode input) [
        | none ↦ err invalid_topic0
        | some payload ↦
            if length payload == 32
            then (rest >>= λ topics. ok (eth.bytes_to_hash payload ∷ topics))
            else err invalid_topic0_length
      ])
