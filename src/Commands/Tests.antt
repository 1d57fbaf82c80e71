-- ===== src/Commands/Tests.antt =====
-- The theorems on the decode command at a small input: a swap, a line that is no JSON, a blank line and
-- a log of another kind.
use liquidity_scope.Prelude.{
  ◌≡◌, refl, false, Option, none, some, List, [], ◌∷◌, ◌==◌, nat_eq, list_eq, pair_eq,
  if◌then◌else◌, ok, err, All,
}
use liquidity_scope.Prelude.Int.{ℤ, pos, negsuc}
use liquidity_scope.Errors.{bad_data}
use liquidity_scope.Text.{Text, codes, to_lower, trim_space}
use liquidity_scope.Text.Decimal.{format_int, format_nat}
use liquidity_scope.Model.{TypedEventRecord, LogRecord, TypedEvent, SwapEventData, PoolMeta, swap}
use liquidity_scope.Chain.{Node, new_client, Address, call_contract}
use liquidity_scope.Dex.Abi.{swap_event, indexed_arguments, non_indexed}
use liquidity_scope.Dex.Sample.{abi_eth}
use liquidity_scope.Dex.TokenMeta.{call_method, fetch_label, fetch_token_meta}
use liquidity_scope.Dex.Values.{Value, as_address, as_big_int, as_uint8, int24_from_big}
use liquidity_scope.Dex.Events.{
  decode_swap, event_topics, parse_indexed_topics, parse_topic_hashes, unpack_non_indexed,
}
use liquidity_scope.Dex.PoolMeta.{
  get_pool_meta, cached_pool_meta, fetch_pool_meta, fetch_pool_fields, first_value, cache_token,
}
use liquidity_scope.Dex.Decoder.{
  Decoder, can_decode, decode, decode_topics, decode_named, decode_event, build_typed_event,
}
use liquidity_scope.Commands.Writer
use liquidity_scope.Commands.Writer.{Medium, write, flush, lines_of}
use liquidity_scope.Commands.Decode.{
  Outside, Session, new_session, handle_lines, handle_line, handle_log, handle_topics, emit,
  fail_with, process, close, decode_error_of, bad_line_error,
}
use liquidity_scope.Commands.Decode.Outcomes.{handle_lines-outcomes}
use liquidity_scope.Commands.Decode.Written.{process-written}
use liquidity_scope.Commands.Decode.Metadata.{process-one_metadata}
use liquidity_scope.Aggregate.Accumulator.{
  Accumulator, new_accumulator, add_event, apply_amounts, observe,
}
use liquidity_scope.Aggregate.Accumulator.Decoded.{decode-add_event}

abbrev sample_decoder : Decoder
sample_decoder = record { topic_to_name = (codes "swap", codes "Swap") ∷ [] }

abbrev sample_log : Text → LogRecord
sample_log topic0 = record {
  chain_id = 1;
  block_number = 7;
  block_hash = [];
  tx_hash = [];
  tx_index = 0;
  log_index = 0;
  address = codes "0xab";
  topics = topic0 ∷ codes "0x0b" ∷ codes "0x0c" ∷ [];
  payload = [];
  removed = false;
  timestamp = 25;
  ingested_at = [];
}

-- Every call is answered, each second one from the start on.
abbrev sample_node : Node
sample_node = record {
  chain_id = λ _. ok 1;
  latest_block = λ _. ok 9;
  header_time = λ _ number. ok number;
  find_logs = λ _ _. ok [];
  call = λ _ msg _. ok msg.payload;
}

abbrev sound : Medium
sound = record { flushes = λ n. n == 1; fault = λ _. none }

abbrev sample_lines : List Text
sample_lines = codes "swap" ∷ codes "?" ∷ codes " " ∷ codes "other" ∷ codes "swap" ∷ []

abbrev env : Outside
env = record {
  eth = abi_eth;
  node = sample_node;
  out_medium = sound;
  err_medium = sound;
  unmarshal_log = λ line. if line == codes "?" then err bad_data else ok (sample_log line);
  message = λ e. codes "error";
}

abbrev sample_swap : SwapEventData
sample_swap = record {
  sender = codes "0x0b";
  recipient = codes "0x0c";
  amount0 = codes "-5";
  amount1 = codes "1000";
  sqrt_price_x96 = codes "7";
  liquidity = codes "7";
  tick = negsuc 4;
}

abbrev sample_event : TypedEvent
sample_event = record {
  chain_id = 1;
  block_number = 7;
  block_hash = [];
  tx_hash = [];
  log_index = 0;
  address = codes "0xab";
  event_name = codes "Swap";
  timestamp = 25;
  decoded = swap sample_swap;
  pool_meta = record {
    token0 = codes "0x01";
    token1 = codes "0x02";
    fee = 60;
    tick_spacing = pos 60;
    liquidity = [];
    slot0 = none;
  };
  raw = some (record { topic0 = codes "swap"; payload = [] });
}

abbrev at_start : Session
at_start = new_session new_client

process-written_example :
    ((process env false sample_decoder sample_lines none at_start).0 ≡ ok tt)
    × ((process env false sample_decoder sample_lines none at_start).1.out.written
        ≡ sample_event ∷ sample_event ∷ [])
    × ((process env false sample_decoder sample_lines none at_start).1.errors.written
        ≡ bad_line_error env.message bad_data ∷ [])
unfolding process close handle_lines handle_line handle_log handle_topics emit fail_with
    decode_error_of bad_line_error can_decode decode decode_topics decode_named decode_event
    build_typed_event get_pool_meta cached_pool_meta fetch_pool_meta fetch_pool_fields first_value
    cache_token call_method fetch_label fetch_token_meta call_contract as_address as_big_int
    as_uint8 int24_from_big decode_swap event_topics parse_indexed_topics parse_topic_hashes
    indexed_arguments non_indexed unpack_non_indexed format_int format_nat to_lower trim_space
    Writer.write Writer.flush
process-written_example =
    process-written env false sample_decoder (λ _. refl) (λ _. refl) sample_lines none new_client

abbrev at_end : Session
at_end = (handle_lines env false sample_decoder sample_lines at_start).1

handle_lines-outcomes_example :
    (at_end.total ≡ 4) × (at_end.decoded ≡ 2) × (at_end.skipped ≡ 1) × (at_end.failed ≡ 1)
unfolding process close handle_lines handle_line handle_log handle_topics emit fail_with
    decode_error_of bad_line_error can_decode decode decode_topics decode_named decode_event
    build_typed_event get_pool_meta cached_pool_meta fetch_pool_meta fetch_pool_fields first_value
    cache_token call_method fetch_label fetch_token_meta call_contract as_address as_big_int
    as_uint8 int24_from_big decode_swap event_topics parse_indexed_topics parse_topic_hashes
    indexed_arguments non_indexed unpack_non_indexed format_int format_nat to_lower trim_space
    Writer.write Writer.flush
handle_lines-outcomes_example =
    let shown = handle_lines-outcomes env false sample_decoder sample_lines at_start refl in
    (shown.total, shown.decoded, shown.skipped, shown.failed)

process-one_metadata_example :
    (metadata : Address → Option PoolMeta) × All
      (λ (e : TypedEvent). metadata (env.eth.hex_to_address e.address) ≡ some e.pool_meta)
      (process env false sample_decoder sample_lines none at_start).1.out.written
process-one_metadata_example =
    process-one_metadata env sample_decoder sample_lines none new_client (λ _. refl) (λ _. refl)

-- The swap as the aggregator reads it.
abbrev read_event : TypedEventRecord
read_event = record {
  chain_id = 1;
  block_number = 7;
  block_hash = [];
  tx_hash = [];
  log_index = 0;
  address = codes "0xab";
  event_name = codes "Swap";
  timestamp = 25;
  decoded = codes "swap";
  pool_meta = sample_event.pool_meta;
  raw = none;
}

abbrev read_swap : Text → Option SwapEventData
read_swap t = if t == codes "swap" then some sample_swap else none

abbrev new_window : Accumulator
new_window = new_accumulator read_event 20 30

decode-add_event_example :
    (first : Value) × (second : Value) × (rest : List Value) × (x : ℤ) × (y : ℤ)
    × (unpack_non_indexed abi_eth swap_event [] ≡ ok (first ∷ second ∷ rest))
    × (as_big_int first ≡ ok x)
    × (as_big_int second ≡ ok y)
    × (add_event read_swap read_event new_window
        ≡ (ok tt, apply_amounts x y (observe read_event new_window)))
unfolding process close handle_lines handle_line handle_log handle_topics emit fail_with
    decode_error_of bad_line_error can_decode decode decode_topics decode_named decode_event
    build_typed_event get_pool_meta cached_pool_meta fetch_pool_meta fetch_pool_fields first_value
    cache_token call_method fetch_label fetch_token_meta call_contract as_address as_big_int
    as_uint8 int24_from_big decode_swap event_topics parse_indexed_topics parse_topic_hashes
    indexed_arguments non_indexed unpack_non_indexed format_int format_nat to_lower trim_space
    Writer.write Writer.flush
decode-add_event_example =
    decode-add_event abi_eth sample_node false sample_decoder (sample_log (codes "swap"))
      at_start.state sample_event sample_swap read_swap read_event new_window refl refl refl refl
