-- ===== src/Aggregate/Session.antt =====
-- The state of an `Aggregator` during `Run` (internal/aggregate/aggregator.go), and what the program
-- takes from outside.
use liquidity_scope.Prelude.{ℕ, zero, suc, Option, List, [], nat_eq, list_eq, pair_eq}
use liquidity_scope.Prelude.Int.{ℤ, pos, negsuc}
use liquidity_scope.Prelude.Dict.{Dict}
use liquidity_scope.Errors.{Error}
use liquidity_scope.Text.{Text, to_lower}
use liquidity_scope.Model.{Pool, PoolWindowMetrics, TypedEventRecord, SwapEventData}
use liquidity_scope.Storage.Files.{Os}
use liquidity_scope.Chain.{Address, Node, Client}
use liquidity_scope.Dex.Library.{Ethereum}
use liquidity_scope.Aggregate.Accumulator.{Accumulator}
use liquidity_scope.Aggregate.State.{StateStore, StateCodec, Durable}

-- `Config`
pub record Config : Type 0 where
  pub window_seconds : ℕ
  pub batch_size : ℤ
  pub recompute_from : ℕ
  pub state_store : StateStore

-- The libraries and services: go-ethereum, the node, the file system, the database's faults, and
-- `json.Unmarshal`. `range_order` is the order in which Go ranges over the accumulators.
pub record Env : Type 0 where
  pub eth : Ethereum
  pub node : Node
  pub os : Os
  pub faults : ℕ → Option Error
  pub codec : StateCodec
  pub unmarshal_event : Text → Option TypedEventRecord
  pub unmarshal_swap : Text → Option SwapEventData
  pub range_order : List Accumulator → List Accumulator

-- The maps of the `Aggregator`, the variables of `Run`, and the client and the stores.
pub record Session : Type 0 where
  pub accumulators : Dict Text Accumulator
  pub pool_seen : Dict Text Pool
  pub decimals : Dict Address ℕ
  pub batch : List PoolWindowMetrics
  pub pools : List Pool
  pub max_ts : ℕ
  pub total : ℕ
  pub decoded : ℕ
  pub skipped : ℕ
  pub failed : ℕ
  pub client : Client
  pub durable : Durable

-- `NewAggregator` and the first lines of `Run`
abbrev pub new_session : Client → Durable → ℕ → Session
new_session client durable start_ts = record {
  accumulators = [];
  pool_seen = [];
  decimals = [];
  batch = [];
  pools = [];
  max_ts = start_ts;
  total = 0;
  decoded = 0;
  skipped = 0;
  failed = 0;
  client = client;
  durable = durable;
}

-- `if a.cfg.BatchSize <= 0 { a.cfg.BatchSize = 1000 }`
abbrev pub batch_limit : ℤ → ℕ
batch_limit (pos zero) = 1000
batch_limit (pos (suc n)) = suc n
batch_limit (negsuc n) = 1000

-- `poolKey`
unfoldable pub pool_key : Text → Text
pool_key = to_lower
