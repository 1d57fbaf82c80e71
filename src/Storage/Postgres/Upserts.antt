-- ===== src/Storage/Postgres/Upserts.antt =====
-- What a row holds after a batch of upserts, and that a batch may be sent again.
use liquidity_scope.Prelude.{
  ◌≡◌, refl, inl, inr, Bool, true, false, Option, none, some, List, [], ◌∷◌, ◌==◌, nat_eq, list_eq,
  pair_eq, if◌then◌else◌, Bool-cases, pair_beq_iff,
}
use liquidity_scope.Prelude.Int.{int_eq}
use liquidity_scope.Prelude.Dict
use liquidity_scope.Prelude.Dict.{Dict, lookup-insert}
use liquidity_scope.Model.{Pool, PoolWindowMetrics}
use liquidity_scope.Storage.Postgres.{
  PoolKey, MetricsKey, PoolRow, MetricsRow, pool_key_of, pool_row_of, metrics_key_of,
  metrics_row_of, merge_pool, put_pool, put_metrics,
}

abbrev first_some {ℓ} : {A : Type ℓ} → Option A → Option A → Option A
first_some (some a) o = some a
first_some none o = o

first_some-if {ℓ} :
    {A : Type ℓ} (l : Option A) (b : Bool) (a : A) (o : Option A)
    → first_some l (if b then some a else o)
      ≡ first_some (first_some l (if b then some a else none)) o
first_some-if (some x) b a o = refl
first_some-if none true a o = refl
first_some-if none false a o = refl

first_some_idem {ℓ} : {A : Type ℓ} (l o : Option A) → first_some l (first_some l o) ≡ first_some l o
first_some_idem (some x) o = refl
first_some_idem none o = refl

-- The row that the last of the metrics with this key would give.
abbrev last_row : MetricsKey → List PoolWindowMetrics → Option MetricsRow
last_row k [] = none
last_row k (m ∷ ms) =
    first_some (last_row k ms) (if metrics_key_of m == k then some (metrics_row_of m) else none)

lookup-put_metrics :
    (ms : List PoolWindowMetrics) (k : MetricsKey) (t : Dict MetricsKey MetricsRow)
    → Dict.lookup k (put_metrics ms t) ≡ first_some (last_row k ms) (Dict.lookup k t)
unfolding put_metrics
lookup-put_metrics [] k t = refl
lookup-put_metrics (m ∷ ms) k t =
    rw (lookup-put_metrics ms k (Dict.insert (metrics_key_of m) (metrics_row_of m) t)) (
      rw (lookup-insert (metrics_key_of m) k (metrics_row_of m) t) (
        first_some-if (last_row k ms) (metrics_key_of m == k) (metrics_row_of m) (Dict.lookup k t)))

-- Sending a batch of metrics twice leaves what sending it once leaves.
pub put_metrics_idem :
    (ms : List PoolWindowMetrics) (k : MetricsKey) (t : Dict MetricsKey MetricsRow)
    → Dict.lookup k (put_metrics ms (put_metrics ms t)) ≡ Dict.lookup k (put_metrics ms t)
put_metrics_idem ms k t =
    simp lookup-put_metrics (first_some_idem (last_row k ms) (Dict.lookup k t))

same_key :
    (j k : PoolKey) (t : Dict PoolKey PoolRow) (row : PoolRow)
    → (if j == k then some (merge_pool (Dict.lookup j t) row) else Dict.lookup k t)
      ≡ (if j == k then some (merge_pool (Dict.lookup k t) row) else Dict.lookup k t)
same_key j k t row = elim (Bool-cases (j == k)) [
  | inl e ↦ let p : j ≡ k = (pair_beq_iff j k).0 e in rw p
  | inr e ↦ rw e
]

pub lookup-put_pool :
    (p : Pool) (k : PoolKey) (t : Dict PoolKey PoolRow)
    → Dict.lookup k (put_pool p t) ≡ (
        if pool_key_of p == k
        then some (merge_pool (Dict.lookup k t) (pool_row_of p))
        else Dict.lookup k t)
unfolding put_pool
lookup-put_pool p k t =
    rw
      (lookup-insert (pool_key_of p) k (merge_pool (Dict.lookup (pool_key_of p) t) (pool_row_of p))
        t)
      (same_key (pool_key_of p) k t (pool_row_of p))
