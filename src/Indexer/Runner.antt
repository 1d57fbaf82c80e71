-- ===== src/Indexer/Runner.antt =====
-- internal/indexer/runner.go and transform.go: the loop that pulls logs, range by range, and writes
-- them with a checkpoint behind each range.
pub mod Invariant
pub mod Count
pub mod Once
pub mod Stored
pub mod Written
pub mod Timed
pub mod Progress
pub mod Complete
pub mod Resume
pub mod Restart
pub mod Again
pub mod Decoded
use liquidity_scope.Prelude.{
  ℕ, zero, suc, ◌+◌, ◌-◌, ◌*◌, ◌/◌, ◌%◌, ◌^◌, ◌≤◌, ◌<◌, ◌≡◌, refl, sym, ap, ◌∙◌, subst, ◌≢◌, ◌↔◌,
  ◌⊎◌, inl, inr, Bool, true, false, not, ◌&&◌, ◌||◌, Option, none, some, List, [], ◌∷◌, ◌++◌, map,
  append-nil, append_assoc, arith, ltb, leb, ◌==◌, Eq, nat_eq, list_eq, pair_eq, beq_refl,
  if◌then◌else◌, Result, ok, err, is_ok, Bool-cases, Option-cases, length, is_empty, All, replicate,
  ne→beq_false, le→leb, lt→leb_false, le→ltb_false, and_then,
}
use liquidity_scope.Prelude.Int.{ℤ}
use liquidity_scope.Prelude.Dict
use liquidity_scope.Prelude.Dict.{Dict}
use liquidity_scope.Errors.{Error, batch_size_zero, no_address, chain_id_too_large, cancelled}
use liquidity_scope.Text.{Text}
use liquidity_scope.Text.Decimal.{format_nat}
use liquidity_scope.Model.{LogRecord}
use liquidity_scope.Chain
use liquidity_scope.Chain.{Address, Hash, Log, Node, Client}
use liquidity_scope.Dex.Library.{Ethereum}
use liquidity_scope.Storage.Files.{Os, Disk}
use liquidity_scope.Storage.Jsonl.{Sink, SinkFaults, put_log_batch}
use liquidity_scope.Indexer.Range.{BlockRange, split_range}
use liquidity_scope.Indexer.Retry.{with_retry}
use liquidity_scope.Indexer.Checkpoint
use liquidity_scope.Indexer.Checkpoint.{Checkpoint, CheckpointStore, CheckpointCodec}

-- `RunConfig`
pub record RunConfig : Type 0 where
  pub from_block : ℕ
  pub to_block : ℕ
  pub addresses : List Address
  pub topic0 : List Hash
  pub batch_size : ℕ
  pub checkpoint : CheckpointStore
  pub max_retries : ℤ
  pub retry_backoff : ℕ

-- The libraries and services. `cancelled` says whether the context is cancelled when so many
-- requests were made; `wait` whether it is cancelled during a delay.
pub record Outside : Type 0 where
  pub eth : Ethereum
  pub node : Node
  pub os : Os
  pub codec : CheckpointCodec
  pub faults : SinkFaults
  pub is_cancelled : ℕ → Bool
  pub wait : ℕ → Client → Bool × Client
  pub ingested_at : ℕ → Text

-- The `Runner`'s own state, and what it writes.
pub record Runner : Type 0 where
  pub client : Client
  pub seen : Dict Text (Unit {0})
  pub sink : Sink
  pub disk : Disk

-- `buildLogRecord`
unfoldable pub build_log_record : Ethereum → ℕ → Log → ℕ → Text → LogRecord
build_log_record eth chain_id log timestamp ingested_at = record {
  chain_id = chain_id;
  block_number = log.block_number;
  block_hash = eth.hash_hex log.block_hash;
  tx_hash = eth.hash_hex log.tx_hash;
  tx_index = log.tx_index;
  log_index = log.index;
  address = eth.address_hex log.address;
  topics = map eth.hash_hex log.topics;
  payload = eth.hex_encode log.payload;
  removed = log.removed;
  timestamp = timestamp;
  ingested_at = ingested_at;
}

-- The format "%d:%s:%d" of `isDuplicate`
unfoldable pub log_id : ℕ → Text → ℕ → Text
log_id block tx_hash index = format_nat block ++ (b':' ∷ (tx_hash ++ (b':' ∷ format_nat index)))

module _ (out : Outside) (cfg : RunConfig) where
  abbrev pub id_of : Log → Text
  id_of log = log_id log.block_number (out.eth.hash_hex log.tx_hash) log.index

  -- `isDuplicate`: an identity that is not known becomes known.
  unfoldable pub is_duplicate : Log → Dict Text (Unit {0}) → Bool × Dict Text (Unit {0})
  is_duplicate log seen = elim (Dict.lookup (id_of log) seen) [
    | some _ ↦ (true, seen)
    | none ↦ (false, Dict.insert (id_of log) tt seen)
  ]

  -- `filterLogsWithRetry`
  unfoldable pub filter_logs_with_retry : ℕ → ℕ → Client → Result Error (List Log) × Client
  filter_logs_with_retry from_block to_block =
      with_retry out.wait (Chain.filter_logs out.node from_block to_block cfg.addresses cfg.topic0)
        cfg.max_retries cfg.retry_backoff

  -- `blockTimestampWithRetry`
  unfoldable pub block_timestamp_with_retry : ℕ → Client → Result Error ℕ × Client
  block_timestamp_with_retry number =
      with_retry out.wait (Chain.block_timestamp out.node number) cfg.max_retries cfg.retry_backoff

  -- The inner loop over the logs of a range, with the records built so far.
  unfoldable pub collect_records :
      ℕ → Text → List Log → List LogRecord → Runner → Result Error (List LogRecord) × Runner
  collect_records chain_id ingested_at [] records r = (ok records, r)
  collect_records chain_id ingested_at (log ∷ logs) records r =
      let (known, seen) = is_duplicate log r.seen in
      let (answer, client) = block_timestamp_with_retry log.block_number r.client in
      let skipped = collect_records chain_id ingested_at logs records r in
      let added = λ (ts : ℕ).
        collect_records chain_id ingested_at logs
          (records ++ build_log_record out.eth chain_id log ts ingested_at ∷ [])
          (record r { seen = seen; client = client }) in
      if known then skipped else (elim answer [
        | err e ↦ (err e, record r { seen = seen; client = client })
        | ok ts ↦ added ts
      ])

  -- The end of a range: the records are stored, and then the checkpoint.
  unfoldable pub store_range : ℕ → List LogRecord → Runner → Result Error Unit × Runner
  store_range last records r =
      let (stored, sink) = put_log_batch out.faults records r.sink in
      let r' = record r { sink = sink } in
      elim stored [
        | err e ↦ (err e, r')
        | ok _ ↦
            let (saved, disk) = Checkpoint.save out.os out.codec cfg.checkpoint last r'.disk in
            (saved, record r' { disk = disk })
      ]

  -- The body of the loop over the ranges.
  unfoldable pub process_range : ℕ → BlockRange → Runner → Result Error Unit × Runner
  process_range chain_id range r =
      if out.is_cancelled r.client.clock
      then (err cancelled, r)
      else (let (answer, client) =
            filter_logs_with_retry range.from_block range.to_block r.client in
          let r' = record r { client = client } in
          elim answer [
            | err e ↦ (err e, r')
            | ok logs ↦
                let (collected, r'') =
                  collect_records chain_id (out.ingested_at client.clock) logs [] r' in
                elim collected [
                  | err e ↦ (err e, r'')
                  | ok records ↦ store_range range.to_block records r''
                ]
          ])

  unfoldable pub process_ranges : ℕ → List BlockRange → Runner → Result Error Unit × Runner
  process_ranges chain_id [] r = (ok tt, r)
  process_ranges chain_id (range ∷ ranges) r =
      and_then (process_range chain_id range r).0 (process_range chain_id range r).1
        λ _ r'. process_ranges chain_id ranges r'

  -- Where the run starts, given what the checkpoint says; the sum is one in uint64.
  unfoldable pub resume_from : Option Checkpoint → ℕ
  resume_from none = cfg.from_block
  resume_from (some cp) =
      if leb cfg.from_block cp.last_processed_block
      then (cp.last_processed_block + 1) % 2 ^ 64
      else cfg.from_block

  -- What follows the checkpoint: nothing to do, or the ranges.
  unfoldable pub sync : ℕ → ℕ → ℕ → Runner → Result Error Unit × Runner
  sync chain_id first last r =
      if ltb last first then (ok tt, r) else (elim (split_range first last cfg.batch_size) [
        | err e ↦ (err e, r)
        | ok ranges ↦ process_ranges chain_id ranges r
      ])

  -- The last block: the one asked for, or the latest one if that is 0.
  unfoldable pub last_block : Client → Result Error ℕ × Client
  last_block c =
      if cfg.to_block == 0 then Chain.latest_block_number out.node c else (ok cfg.to_block, c)

  unfoldable pub with_checkpoint : ℕ → ℕ → Runner → Result Error Unit × Runner
  unfolding sync resume_from
  with_checkpoint chain_id last r =
      let (loaded, disk) = Checkpoint.load out.os out.codec cfg.checkpoint r.disk in
      let r' = record r { disk = disk } in
      elim loaded [ err e ↦ (err e, r') | ok cp ↦ sync chain_id (resume_from cp) last r' ]

  -- `Run`
  unfoldable pub run : Runner → Result Error Unit × Runner
  unfolding last_block with_checkpoint
  run r =
      if cfg.batch_size == 0
      then (err batch_size_zero, r)
      else if is_empty cfg.addresses
      then (err no_address, r)
      else (let (answer, client) = Chain.get_chain_id out.node r.client in
          elim answer [
            | err e ↦ (err e, record r { client = client })
            | ok chain_id ↦
                if leb (2 ^ 64) chain_id
                then (err chain_id_too_large, record r { client = client })
                else (let (last, client') = last_block client in
                    elim last [
                      | err e ↦ (err e, record r { client = client' })
                      | ok to_block ↦
                          with_checkpoint chain_id to_block (record r { client = client' })
                    ])
          ])
