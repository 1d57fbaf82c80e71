-- ===== src/Storage/Tests.antt =====
-- The stores at concrete files and rows.
use liquidity_scope.Prelude.{
  ℕ, ◌+◌, ◌≡◌, ◌≢◌, ◌⊎◌, false, none, some, List, [], ◌∷◌, ◌==◌, nat_eq, list_eq, pair_eq,
  if◌then◌else◌, All, String,
}
use liquidity_scope.Prelude.Dict
use liquidity_scope.Prelude.Int.{pos, int_eq}
use liquidity_scope.Errors.{no_such_file}
use liquidity_scope.Text.{codes}
use liquidity_scope.Model.{Pool, PoolWindowMetrics}
use liquidity_scope.Storage.Files.{
  rename, write_file, make_parent, Os, Disk, file, entry_at, replace_file,
}
use liquidity_scope.Storage.Files.Replace.{replace_file-Leaves}
use liquidity_scope.Storage.Postgres.{MetricsKey, PoolKey, MetricsRow, put_pools, put_metrics}
use liquidity_scope.Storage.Postgres.Upserts.{put_metrics_idem}
use liquidity_scope.Storage.Postgres.Rows.{
  window_key, HasColumns, IsLastMetrics, put_metrics-columns,
}
use liquidity_scope.Storage.Postgres.PoolRows.{HasNone, HasPool, put_pools-columns}

-- The second request, the write of the temporary file, fails half way.
abbrev full_disk : Os
full_disk = record {
  fault = λ n. if n == 1 then some no_such_file else none;
  torn = λ _. codes "{";
  parent_is_dot = λ _. false;
}

abbrev old_state : Disk
old_state = record { entries = (codes "state.json", file (codes "old")) ∷ []; clock = 0 }

replace_file-Leaves_example :
    entry_at
      (codes "state.json")
      (replace_file full_disk (codes "state.json") (codes "new") old_state).1
    ≡ some (file (codes "old"))
unfolding replace_file make_parent write_file rename
replace_file-Leaves_example =
    replace_file-Leaves full_disk (codes "state.json") (codes "new") old_state

abbrev metrics : ℕ → String → PoolWindowMetrics
metrics start volume = record {
  chain_id = 1;
  pool_address = codes "0xab";
  window_size_secs = 10;
  window_start = start;
  window_end = start + 10;
  swap_count = 1;
  volume0 = codes volume;
  volume1 = codes "0";
  fee0 = codes "0";
  fee1 = codes "0";
  fee_usd = none;
  fee_rate0 = none;
  fee_rate1 = none;
  tvl0 = none;
  tvl1 = none;
  tvl_usd = none;
  apr = none;
  fee_method = codes "approx_from_feeTier";
  tvl_method = codes "unavailable";
}

abbrev key : ℕ → MetricsKey
key start = ((pos 1, codes "0xab"), (10, start))

abbrev metrics_batch : List PoolWindowMetrics
metrics_batch = metrics 20 "1" ∷ metrics 30 "2" ∷ metrics 20 "3" ∷ []

put_metrics-columns_example :
    (All (λ (x : PoolWindowMetrics). window_key x ≢ key 20) metrics_batch
      × (Dict.lookup (key 20) (put_metrics metrics_batch []) ≡ none))
    ⊎ ((m : PoolWindowMetrics) × (row : MetricsRow) × IsLastMetrics (key 20) metrics_batch m
        × (Dict.lookup (key 20) (put_metrics metrics_batch []) ≡ some row)
        × HasColumns m row)
put_metrics-columns_example = put_metrics-columns metrics_batch (key 20) []

put_metrics_idem_example :
    let ms = metrics 20 "1" ∷ metrics 20 "3" ∷ [] in
    Dict.lookup (key 20) (put_metrics ms (put_metrics ms []))
    ≡ Dict.lookup (key 20) (put_metrics ms [])
put_metrics_idem_example = put_metrics_idem (metrics 20 "1" ∷ metrics 20 "3" ∷ []) (key 20) []

abbrev pool : ℕ → Pool
pool first_seen = record {
  chain_id = 1;
  address = codes "0xab";
  token0 = codes "0x01";
  token1 = codes "0x02";
  fee = 3000;
  tick_spacing = pos 60;
  first_seen_block = first_seen;
}

abbrev pool_key : PoolKey
pool_key = (pos 1, codes "0xab")

put_pools-columns_example :
    HasNone pool_key
      (pool 7 ∷ pool 9 ∷ [])
      none
      (Dict.lookup pool_key (put_pools (pool 7 ∷ pool 9 ∷ []) []))
    ⊎ HasPool pool_key
        (pool 7 ∷ pool 9 ∷ [])
        none
        (Dict.lookup pool_key (put_pools (pool 7 ∷ pool 9 ∷ []) []))
put_pools-columns_example = put_pools-columns (pool 7 ∷ pool 9 ∷ []) pool_key []
