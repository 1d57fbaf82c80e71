-- ===== src/Storage/Postgres.antt =====
-- internal/storage/postgres/store.go: the three tables under the statements that the code sends.
-- The columns `created_at` and `updated_at`, which the database fills, are left out. A batch that
-- fails is rolled back; which requests fail is the parameter `faults`, by their number.
pub mod Upserts
pub mod Rows
pub mod PoolRows
use liquidity_scope.Prelude.{
  ℕ, zero, suc, ◌+◌, ◌-◌, ◌*◌, ◌/◌, ◌%◌, ◌^◌, ◌≤◌, ◌<◌, ◌≡◌, refl, sym, ap, ◌∙◌, subst, ◌≢◌, ◌↔◌,
  ◌⊎◌, inl, inr, Bool, true, false, not, ◌&&◌, ◌||◌, Option, none, some, List, [], ◌∷◌, ◌++◌, map,
  append-nil, append_assoc, arith, ltb, leb, ◌==◌, Eq, nat_eq, list_eq, pair_eq, beq_refl,
  if◌then◌else◌, Result, ok, err, is_ok, Bool-cases, Option-cases, length, is_empty, All, replicate,
  ne→beq_false, le→leb, lt→leb_false, le→ltb_false,
}
use liquidity_scope.Prelude.Int.{ℤ, int_eq, leb_ℤ, to_int64}
use liquidity_scope.Prelude.Dict
use liquidity_scope.Prelude.Dict.{Dict}
use liquidity_scope.Errors.{Error, no_state_name}
use liquidity_scope.Text.{Text}
use liquidity_scope.Model.{Pool, PoolWindowMetrics}

-- PRIMARY KEY (chain_id, pool_address)
abbrev pub PoolKey : Type 0
PoolKey = ℤ × Text

-- PRIMARY KEY (chain_id, pool_address, window_size_seconds, window_start_ts)
abbrev pub MetricsKey : Type 0
MetricsKey = PoolKey × (ℕ × ℕ)

-- The other columns of `pools`.
pub record PoolRow : Type 0 where
  pub token0 : Text
  pub token1 : Text
  pub fee : ℕ
  pub tick_spacing : ℤ
  pub first_seen_block : ℤ

-- The other columns of `pool_window_metrics`.
pub record MetricsRow : Type 0 where
  pub window_end : ℕ
  pub swap_count : ℤ
  pub volume0 : Text
  pub volume1 : Text
  pub fee0 : Text
  pub fee1 : Text
  pub fee_usd : Option Text
  pub fee_rate0 : Option Text
  pub fee_rate1 : Option Text
  pub tvl0 : Option Text
  pub tvl1 : Option Text
  pub tvl_usd : Option Text
  pub apr : Option Text
  pub fee_method : Text
  pub tvl_method : Text

pub record Store : Type 0 where
  pub pools : Dict PoolKey PoolRow
  pub metrics : Dict MetricsKey MetricsRow
  pub states : Dict Text ℕ
  pub clock : ℕ

abbrev pub tick : Store → Store
tick s = record s { clock = s.clock + 1 }

abbrev pub pool_key_of : Pool → PoolKey
pool_key_of p = (to_int64 p.chain_id, p.address)

abbrev pub pool_row_of : Pool → PoolRow
pool_row_of p = record {
  token0 = p.token0;
  token1 = p.token1;
  fee = p.fee;
  tick_spacing = p.tick_spacing;
  first_seen_block = to_int64 p.first_seen_block;
}

abbrev pub metrics_key_of : PoolWindowMetrics → MetricsKey
metrics_key_of m = ((to_int64 m.chain_id, m.pool_address), (m.window_size_secs, m.window_start))

abbrev pub metrics_row_of : PoolWindowMetrics → MetricsRow
metrics_row_of m = record {
  window_end = m.window_end;
  swap_count = to_int64 m.swap_count;
  volume0 = m.volume0;
  volume1 = m.volume1;
  fee0 = m.fee0;
  fee1 = m.fee1;
  fee_usd = m.fee_usd;
  fee_rate0 = m.fee_rate0;
  fee_rate1 = m.fee_rate1;
  tvl0 = m.tvl0;
  tvl1 = m.tvl1;
  tvl_usd = m.tvl_usd;
  apr = m.apr;
  fee_method = m.fee_method;
  tvl_method = m.tvl_method;
}

-- LEAST
abbrev pub least : ℤ → ℤ → ℤ
least a b = if leb_ℤ a b then a else b

-- DO UPDATE SET of `pools`, on the row that is there
abbrev pub merge_pool : Option PoolRow → PoolRow → PoolRow
merge_pool none row = row
merge_pool (some old) row = record row {
  first_seen_block = least old.first_seen_block row.first_seen_block;
}

unfoldable pub put_pool : Pool → Dict PoolKey PoolRow → Dict PoolKey PoolRow
put_pool p t =
    Dict.insert (pool_key_of p) (merge_pool (Dict.lookup (pool_key_of p) t) (pool_row_of p)) t

unfoldable pub put_pools : List Pool → Dict PoolKey PoolRow → Dict PoolKey PoolRow
unfolding put_pool
put_pools [] t = t
put_pools (p ∷ ps) t = put_pools ps (put_pool p t)

unfoldable pub put_metrics :
    List PoolWindowMetrics → Dict MetricsKey MetricsRow → Dict MetricsKey MetricsRow
put_metrics [] t = t
put_metrics (m ∷ ms) t = put_metrics ms (Dict.insert (metrics_key_of m) (metrics_row_of m) t)

module _ (faults : ℕ → Option Error) where
  -- `UpsertPools`
  unfoldable pub upsert_pools : List Pool → Store → Result Error Unit × Store
  upsert_pools [] s = (ok tt, s)
  upsert_pools (p ∷ ps) s = elim (faults s.clock) [
    | some e ↦ (err e, tick s)
    | none ↦ (ok tt, record (tick s) { pools = put_pools (p ∷ ps) s.pools })
  ]

  -- `UpsertWindowMetrics`
  unfoldable pub upsert_window_metrics : List PoolWindowMetrics → Store → Result Error Unit × Store
  upsert_window_metrics [] s = (ok tt, s)
  upsert_window_metrics (m ∷ ms) s = elim (faults s.clock) [
    | some e ↦ (err e, tick s)
    | none ↦ (ok tt, record (tick s) { metrics = put_metrics (m ∷ ms) s.metrics })
  ]

  -- `LoadState`; `none` where there is no row
  unfoldable pub load_state : Text → Store → Result Error (Option ℕ) × Store
  load_state name s = if is_empty name then (err no_state_name, s) else (elim (faults s.clock) [
    | some e ↦ (err e, tick s)
    | none ↦ (ok (Dict.lookup name s.states), tick s)
  ])

  -- `SaveState`
  unfoldable pub save_state : Text → ℕ → Store → Result Error Unit × Store
  save_state name ts s = if is_empty name then (err no_state_name, s) else (elim (faults s.clock) [
    | some e ↦ (err e, tick s)
    | none ↦ (ok tt, record (tick s) { states = Dict.insert name ts s.states })
  ])
