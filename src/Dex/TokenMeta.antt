-- ===== src/Dex/TokenMeta.antt =====
-- `callPoolMethod` and `FetchTokenMeta` of internal/dex/metadata.go.
use liquidity_scope.Prelude.{
  ℕ, not, ◌||◌, Option, none, some, List, [], nat_eq, list_eq, pair_eq, if◌then◌else◌, Result, ok,
  err,
}
use liquidity_scope.Errors.{Error, parse_abi, bad_data}
use liquidity_scope.Text.{Text, codes}
use liquidity_scope.Model.{TokenMeta}
use liquidity_scope.Chain.{Address, Node, Client, call_contract}
use liquidity_scope.Dex.Values.{Value, string, as_uint8, bytes32_to_string}
use liquidity_scope.Dex.Library.{Ethereum}
use liquidity_scope.Dex.Abi.{AbiName, erc20_string, erc20_bytes32}

-- The `string` case of a type switch.
abbrev as_text : Value → Option Text
as_text (string s) = some s
as_text _ = none

abbrev pub or_else {ℓ} : {A : Type ℓ} → Option A → A → A
or_else (some a) b = a
or_else none b = b

module _ (eth : Ethereum) (node : Node) where
  -- `callPoolMethod`, and the closure `call` of `FetchTokenMeta`: pack, call, unpack.
  unfoldable pub call_method :
      Address
      → AbiName
      → Text
      → Option Address
      → Option ℕ
      → Client
      → Result Error (Value × List Value) × Client
  unfolding call_contract
  call_method callee abi method argument block c = elim (eth.pack abi method argument) [
    | none ↦ (err bad_data, c)
    | some payload ↦
        let (answer, c') =
          call_contract node (record { callee = callee; payload = payload }) block c in
        elim answer [
          | err e ↦ (err e, c')
          | ok resp ↦ elim (eth.unpack abi method resp) [
            | none ↦ (err bad_data, c')
            | some values ↦ (ok values, c')
          ]
        ]
  ]

  -- The symbol or the name: first as a string, and if that call fails as 32 bytes; empty if neither
  -- gives a text.
  unfoldable pub fetch_label : Address → Text → Client → Text × Client
  unfolding call_method
  fetch_label token method c =
      let (first, c') = call_method token erc20_string method none none c in
      elim first [
        | ok (value, _) ↦ (or_else (as_text value) [], c')
        | err _ ↦
            let (second, c'') = call_method token erc20_bytes32 method none none c' in
            elim second [
              | ok (value, _) ↦ (or_else (bytes32_to_string value) [], c'')
              | err _ ↦ ([], c'')
            ]
      ]

  -- `FetchTokenMeta`: the metadata comes back beside an error too, with what was read.
  unfoldable pub fetch_token_meta : Address → Client → (Result Error Unit × TokenMeta) × Client
  unfolding fetch_label
  fetch_token_meta token c =
      let meta : TokenMeta = record {
        address = eth.address_hex token;
        decimals = 0;
        symbol = [];
        name = [];
      } in
      if not (eth.parses erc20_string) || not (eth.parses erc20_bytes32)
      then ((err parse_abi, meta), c)
      else (let (answer, c') = call_method token erc20_string (codes "decimals") none none c in
          elim answer [
            | err e ↦ ((err e, meta), c')
            | ok (value, _) ↦ elim (as_uint8 value) [
              | err e ↦ ((err e, meta), c')
              | ok decimals ↦
                  let (symbol, c'') = fetch_label token (codes "symbol") c' in
                  let (name, c''') = fetch_label token (codes "name") c'' in
                  ((ok tt, record meta { decimals = decimals; symbol = symbol; name = name }), c''')
            ]
          ])
