-- ===== src/Model.antt =====
-- internal/model: the records that the stages of the pipeline hand on. A `*string` or a pointer to
-- a record is an `Option`; times are seconds of the Unix epoch.
use liquidity_scope.Prelude.{ℕ, Bool, Option, List}
use liquidity_scope.Prelude.Int.{ℤ}
use liquidity_scope.Text.{Text}

-- log_record.go
pub record LogRecord : Type 0 where
  pub chain_id : ℕ
  pub block_number : ℕ
  pub block_hash : Text
  pub tx_hash : Text
  pub tx_index : ℕ
  pub log_index : ℕ
  pub address : Text
  pub topics : List Text
  pub payload : Text
  pub removed : Bool
  pub timestamp : ℕ
  pub ingested_at : Text

-- events.go
pub record SwapEventData : Type 0 where
  pub sender : Text
  pub recipient : Text
  pub amount0 : Text
  pub amount1 : Text
  pub sqrt_price_x96 : Text
  pub liquidity : Text
  pub tick : ℤ

pub record MintEventData : Type 0 where
  pub sender : Text
  pub owner : Text
  pub tick_lower : ℤ
  pub tick_upper : ℤ
  pub amount : Text
  pub amount0 : Text
  pub amount1 : Text

pub record BurnEventData : Type 0 where
  pub owner : Text
  pub tick_lower : ℤ
  pub tick_upper : ℤ
  pub amount : Text
  pub amount0 : Text
  pub amount1 : Text

pub record CollectEventData : Type 0 where
  pub owner : Text
  pub recipient : Text
  pub tick_lower : ℤ
  pub tick_upper : ℤ
  pub amount0 : Text
  pub amount1 : Text

-- The `interface{}` of a decoded event.
pub data EventData : Type 0 where
  swap : SwapEventData → EventData
  mint : MintEventData → EventData
  burn : BurnEventData → EventData
  collect : CollectEventData → EventData

-- pool_meta.go
pub record PoolSlot0 : Type 0 where
  pub sqrt_price_x96 : Text
  pub tick : ℤ

pub record PoolMeta : Type 0 where
  pub token0 : Text
  pub token1 : Text
  pub fee : ℕ
  pub tick_spacing : ℤ
  pub liquidity : Text
  pub slot0 : Option PoolSlot0

-- typed_event.go
pub record RawLogRef : Type 0 where
  pub topic0 : Text
  pub payload : Text

pub record TypedEvent : Type 0 where
  pub chain_id : ℕ
  pub block_number : ℕ
  pub block_hash : Text
  pub tx_hash : Text
  pub log_index : ℕ
  pub address : Text
  pub event_name : Text
  pub timestamp : ℕ
  pub decoded : EventData
  pub pool_meta : PoolMeta
  pub raw : Option RawLogRef

-- typed_event_record.go: the payload of the event is still JSON.
pub record TypedEventRecord : Type 0 where
  pub chain_id : ℕ
  pub block_number : ℕ
  pub block_hash : Text
  pub tx_hash : Text
  pub log_index : ℕ
  pub address : Text
  pub event_name : Text
  pub timestamp : ℕ
  pub decoded : Text
  pub pool_meta : PoolMeta
  pub raw : Option RawLogRef

-- pool.go
pub record Pool : Type 0 where
  pub chain_id : ℕ
  pub address : Text
  pub token0 : Text
  pub token1 : Text
  pub fee : ℕ
  pub tick_spacing : ℤ
  pub first_seen_block : ℕ

-- token_meta.go
pub record TokenMeta : Type 0 where
  pub address : Text
  pub decimals : ℕ
  pub symbol : Text
  pub name : Text

-- decode_error.go
pub record DecodeError : Type 0 where
  pub chain_id : ℕ
  pub block_number : ℕ
  pub tx_hash : Text
  pub log_index : ℕ
  pub address : Text
  pub topic0 : Text
  pub message : Text

-- pool_window_metrics.go
pub record PoolWindowMetrics : Type 0 where
  pub chain_id : ℕ
  pub pool_address : Text
  pub window_size_secs : ℕ
  pub window_start : ℕ
  pub window_end : ℕ
  pub swap_count : ℕ
  pub volume0 : Text
  pub volume1 : Text
  pub fee0 : Text
  pub fee1 : Text
  pub fee_usd : Option Text
  pub fee_rate0 : Option Text
  pub fee_rate1 : Option Text
  pub tvl0 : Option Text
  pub tvl1 : Option Text
  pub tvl_usd : Option Text
  pub apr : Option Text
  pub fee_method : Text
  pub tvl_method : Text
