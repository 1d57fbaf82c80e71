-- ===== src/Storage/Postgres/Rows.antt =====
-- The columns that `UpsertWindowMetrics` of internal/storage/postgres/store.go leaves in a row.
use liquidity_scope.Prelude.{
  ◌≡◌, refl, ap, ◌∙◌, ◌≢◌, ◌⊎◌, inl, inr, some, List, [], ◌∷◌, ◌++◌, ◌==◌, nat_eq, list_eq, pair_eq,
  Bool-cases, All, pair_beq_iff,
}
use liquidity_scope.Prelude.Int.{int_eq, to_int64}
use liquidity_scope.Prelude.Dict
use liquidity_scope.Prelude.Dict.{Dict, lookup-insert}
use liquidity_scope.Model.{PoolWindowMetrics}
use liquidity_scope.Storage.Postgres.{MetricsKey, MetricsRow, metrics_row_of, put_metrics}

-- The key of a window's row: the chain, the pool, the length of the window and its start.
abbrev pub window_key : PoolWindowMetrics → MetricsKey
window_key m = ((to_int64 m.chain_id, m.pool_address), (m.window_size_secs, m.window_start))

-- Every other column of the row is the one of these metrics.
abbrev pub HasColumns : PoolWindowMetrics → MetricsRow → Type 0
HasColumns m row =
    (row.window_end ≡ m.window_end)
    × (row.swap_count ≡ to_int64 m.swap_count)
    × (row.volume0 ≡ m.volume0)
    × (row.volume1 ≡ m.volume1)
    × (row.fee0 ≡ m.fee0)
    × (row.fee1 ≡ m.fee1)
    × (row.fee_usd ≡ m.fee_usd)
    × (row.fee_rate0 ≡ m.fee_rate0)
    × (row.fee_rate1 ≡ m.fee_rate1)
    × (row.tvl0 ≡ m.tvl0)
    × (row.tvl1 ≡ m.tvl1)
    × (row.tvl_usd ≡ m.tvl_usd)
    × (row.apr ≡ m.apr)
    × (row.fee_method ≡ m.fee_method)
    × (row.tvl_method ≡ m.tvl_method)

-- The metrics are the last ones of this key in the batch.
abbrev pub IsLastMetrics : MetricsKey → List PoolWindowMetrics → PoolWindowMetrics → Type 0
IsLastMetrics k ms m =
    (before : List PoolWindowMetrics) × (after : List PoolWindowMetrics) × (ms
      ≡ before ++ m ∷ after)
    × (window_key m ≡ k)
    × All (λ (x : PoolWindowMetrics). window_key x ≢ k) after

-- Take a batch of metrics, a table and a key. Either no metrics of the batch have the key, and the
-- table has for it what it had before; or the table has a row for it, and each of its columns is the
-- one of the last metrics in the batch that have the key.
pub put_metrics-columns :
    (ms : List PoolWindowMetrics) (k : MetricsKey) (t : Dict MetricsKey MetricsRow)
    → (All (λ (x : PoolWindowMetrics). window_key x ≢ k) ms
        × (Dict.lookup k (put_metrics ms t) ≡ Dict.lookup k t))
      ⊎ ((m : PoolWindowMetrics) × (row : MetricsRow) × IsLastMetrics k ms m
          × (Dict.lookup k (put_metrics ms t) ≡ some row)
          × HasColumns m row)
unfolding put_metrics
put_metrics-columns [] k t = inl (tt, refl)
put_metrics-columns (m ∷ ms) k t =
    let j = window_key m in
    let t' = Dict.insert j (metrics_row_of m) t in
    let here = lookup-insert j k (metrics_row_of m) t in
    elim (put_metrics-columns ms k t') [
      | inr (m', row, (before, after, e, same, last), found, columns) ↦
          inr (m', row, (m ∷ before, after, ap (λ xs. m ∷ xs) e, same, last), found, columns)
      | inl (others, kept) ↦ elim (Bool-cases (j == k)) [
        | inl e ↦ inr (
          m,
          metrics_row_of m,
          ([], ms, refl, (pair_beq_iff j k).0 e, others),
          kept ∙ rw e at here,
          (
            refl, refl, refl, refl, refl, refl, refl, refl, refl, refl, refl, refl, refl, refl,
            refl,
          ),
        )
        | inr e ↦ inl ((λ same. cc (e, (pair_beq_iff j k).1 same), others), kept ∙ rw e at here)
      ]
    ]
