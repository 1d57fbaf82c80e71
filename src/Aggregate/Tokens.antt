-- ===== src/Aggregate/Tokens.antt =====
-- What the aggregator reads from the chain: token decimals through the cache of
-- internal/aggregate/token_cache.go, and the balances of internal/aggregate/tvl.go.
use liquidity_scope.Prelude.{
  ℕ, ◌+◌, not, ◌||◌, Option, none, some, List, [], ◌∷◌, nat_eq, list_eq, pair_eq, if◌then◌else◌,
  Result, ok, err, length,
}
use liquidity_scope.Prelude.Int.{ℤ}
use liquidity_scope.Prelude.Dict
use liquidity_scope.Errors.{
  Error, invalid_token, balance_failed, parse_abi, value_count, unsupported_type,
}
use liquidity_scope.Text.{Text, codes}
use liquidity_scope.Chain.{Address, Client}
use liquidity_scope.Dex.Values.{Value, big_int}
use liquidity_scope.Dex.Abi.{balance_of}
use liquidity_scope.Dex.TokenMeta.{fetch_token_meta, call_method}
use liquidity_scope.Aggregate.Session.{Env, Session}

module _ (env : Env) where
  -- `FetchTokenDecimals`
  unfoldable pub fetch_token_decimals : Address → Client → Result Error ℕ × Client
  fetch_token_decimals token c =
      let ((r, meta), c') = fetch_token_meta env.eth env.node token c in
      elim r [ err e ↦ (err e, c') | ok _ ↦ (ok meta.decimals, c') ]

  -- `getTokenDecimals`
  unfoldable pub get_token_decimals : Text → Session → Result Error ℕ × Session
  get_token_decimals token s =
      if not (env.eth.is_hex_address token)
      then (err invalid_token, s)
      else (let addr = env.eth.hex_to_address token in
          elim (Dict.lookup addr s.decimals) [
            | some decimals ↦ (ok decimals, s)
            | none ↦
                let (r, c) = fetch_token_decimals addr s.client in
                elim r [
                  | err e ↦ (err e, record s { client = c })
                  | ok n ↦ (ok n, record s { client = c; decimals = Dict.insert addr n s.decimals })
                ]
          ])

  only_big_int : Value × List Value → Result Error ℤ
  only_big_int (big_int v, []) = ok v
  only_big_int (_, []) = err unsupported_type
  only_big_int (_, v ∷ vs) = err (value_count (length vs + 2))

  -- `balanceOf`
  unfoldable pub get_balance : Address → Address → Option ℕ → Client → Result Error ℤ × Client
  unfolding only_big_int
  get_balance token owner block c =
      if not (env.eth.parses balance_of)
      then (err parse_abi, c)
      else (let (r, c') =
            call_method env.eth env.node token balance_of (codes "balanceOf") (some owner) block
              c in
          elim r [ err e ↦ (err e, c') | ok values ↦ (only_big_int values, c') ])

  abbrev both_ok : Result Error ℤ → Result Error ℤ → Option (ℤ × ℤ)
  both_ok (ok a) (ok b) = some (a, b)
  both_ok (ok a) (err e) = none
  both_ok (err e) _ = none

  -- `fetchTVL`: the balances at the block, or else the latest ones, with the method's name.
  unfoldable pub fetch_tvl :
      Text → Text → Text → ℕ → Client → Result Error ((ℤ × ℤ) × Text) × Client
  fetch_tvl token0 token1 pool_addr block_number c =
      let eth = env.eth in
      if not (eth.is_hex_address token0)
        || not (eth.is_hex_address token1)
        || not (eth.is_hex_address pool_addr)
      then (err invalid_token, c)
      else (let pool = eth.hex_to_address pool_addr in
          let addr0 = eth.hex_to_address token0 in
          let addr1 = eth.hex_to_address token1 in
          let (bal0, c1) = get_balance addr0 pool (some block_number) c in
          let (bal1, c2) = get_balance addr1 pool (some block_number) c1 in
          elim (both_ok bal0 bal1) [
            | some balances ↦ (ok (balances, codes "balance_of_block"), c2)
            | none ↦
                let (latest0, c3) = get_balance addr0 pool none c2 in
                let (latest1, c4) = get_balance addr1 pool none c3 in
                elim (both_ok latest0 latest1) [
                  | some balances ↦ (ok (balances, codes "balance_of_latest"), c4)
                  | none ↦ (err balance_failed, c4)
                ]
          ])
