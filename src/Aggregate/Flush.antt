-- ===== src/Aggregate/Flush.antt =====
-- `flushAccumulator` and `registerPool` of internal/aggregate/aggregator.go: a closed window becomes
-- a row of metrics, and its pool a record when it is new or was seen earlier than known.
use liquidity_scope.Prelude.{
  ℕ, Bool, false, ◌||◌, Option, none, some, leb, ◌==◌, nat_eq, list_eq, pair_eq, if◌then◌else◌,
  Result, ok, err, is_empty,
}
use liquidity_scope.Prelude.Int.{ℤ}
use liquidity_scope.Prelude.Dict
use liquidity_scope.Prelude.Dict.{Dict}
use liquidity_scope.Errors.{Error}
use liquidity_scope.Text.{Text, codes}
use liquidity_scope.Model.{Pool, PoolWindowMetrics}
use liquidity_scope.Chain.{Client}
use liquidity_scope.Aggregate.Accumulator.{Accumulator}
use liquidity_scope.Aggregate.Format.{format_token_amount, compute_fee_rates, compute_apr}
use liquidity_scope.Aggregate.Session.{Env, Session, pool_key}
use liquidity_scope.Aggregate.Tokens.{get_token_decimals, fetch_tvl}

abbrev pub pool_of : Accumulator → Pool
pool_of acc = record {
  chain_id = acc.chain_id;
  address = acc.pool_address;
  token0 = acc.pool_meta.token0;
  token1 = acc.pool_meta.token1;
  fee = acc.pool_meta.fee;
  tick_spacing = acc.pool_meta.tick_spacing;
  first_seen_block = acc.first_block;
}

-- Whether `registerPool` leaves the pool that it knows.
abbrev known_earlier : Option Pool → Pool → Bool
known_earlier none pool = false
known_earlier (some existing) pool = leb existing.first_seen_block pool.first_seen_block

-- `registerPool`
unfoldable pub register_pool : Accumulator → Dict Text Pool → Option Pool × Dict Text Pool
register_pool acc seen =
    let key = pool_key acc.pool_address in
    let pool = pool_of acc in
    if known_earlier (Dict.lookup key seen) pool
    then (none, seen)
    else (some pool, Dict.insert key pool seen)

-- A value beside an error is Go's zero value.
abbrev or_zero : Result Error ℕ → ℕ
or_zero (ok n) = n
or_zero (err e) = 0

-- What the code keeps of `fetchTVL`: the balances, if there are any, and the method.
abbrev tvl_parts : Result Error ((ℤ × ℤ) × Text) → (Option ℤ × Option ℤ) × Text
tvl_parts (err e) = ((none, none), codes "unavailable")
tvl_parts (ok ((balance0, balance1), method)) = ((some balance0, some balance1), method)

abbrev format_if : Option ℤ → ℕ → Option Text
format_if none decimals = none
format_if (some balance) decimals = some (format_token_amount (some balance) decimals)

-- The row that `flushAccumulator` builds from the totals and from what it read from the chain. The
-- length, the start and the end of the window are kept as they are: below 2^63, the conversions to
-- int64 change nothing.
unfoldable pub metrics_of :
    ℕ → Accumulator → ℕ → ℕ → (Option ℤ × Option ℤ) × Text → PoolWindowMetrics
metrics_of window_seconds acc decimals0 decimals1 ((tvl0, tvl1), method) =
    let (rate0, rate1) = compute_fee_rates (some acc.fee0) (some acc.fee1) tvl0 tvl1 in
    record {
      chain_id = acc.chain_id;
      pool_address = acc.pool_address;
      window_size_secs = window_seconds;
      window_start = acc.window_start;
      window_end = acc.window_end;
      swap_count = acc.swap_count;
      volume0 = format_token_amount (some acc.volume0) decimals0;
      volume1 = format_token_amount (some acc.volume1) decimals1;
      fee0 = format_token_amount (some acc.fee0) decimals0;
      fee1 = format_token_amount (some acc.fee1) decimals1;
      fee_usd = none;
      fee_rate0 = rate0;
      fee_rate1 = rate1;
      tvl0 = format_if tvl0 decimals0;
      tvl1 = format_if tvl1 decimals1;
      tvl_usd = none;
      apr = compute_apr rate0 rate1 window_seconds;
      fee_method = codes "approx_from_feeTier";
      tvl_method = method;
    }

module _ (env : Env) where
  -- The call of `fetchTVL`, which is made only for a block that is known.
  read_tvl : Accumulator → Client → ((Option ℤ × Option ℤ) × Text) × Client
  read_tvl acc c =
      if acc.last_block == 0
      then (((none, none), codes "unavailable"), c)
      else (let m = acc.pool_meta in
          let (r, c') = fetch_tvl env m.token0 m.token1 acc.pool_address acc.last_block c in
          (tvl_parts r, c'))

  -- `flushAccumulator`; its error is always nil
  unfoldable pub flush_accumulator :
      ℕ → Accumulator → Session → (Option PoolWindowMetrics × Option Pool) × Session
  unfolding read_tvl
  flush_accumulator window_seconds acc s =
      if is_empty acc.pool_meta.token0 || is_empty acc.pool_meta.token1
      then ((none, none), s)
      else (let (pool, seen) = register_pool acc s.pool_seen in
          let (r0, s0) =
            get_token_decimals env acc.pool_meta.token0 (record s { pool_seen = seen }) in
          let (r1, s1) = get_token_decimals env acc.pool_meta.token1 s0 in
          let (tvl, c) = read_tvl acc s1.client in
          (
            (some (metrics_of window_seconds acc (or_zero r0) (or_zero r1) tvl), pool),
            record s1 { client = c },
          ))
