-- ===== src/Aggregate/Run/Tests.antt =====
-- A small input for `Run`: one pool with a swap in the window from 20 to 30 and two in the next one.
use liquidity_scope.Prelude.{
  ℕ, ◌<◌, ◌≡◌, refl, true, Option, none, some, List, [], ◌∷◌, arith, ◌==◌, nat_eq, list_eq, pair_eq,
  if◌then◌else◌, ok, String,
}
use liquidity_scope.Dex.Sample.{plain_eth}
use liquidity_scope.Errors.{zero_window}
use liquidity_scope.Storage.Files
use liquidity_scope.Aggregate.State.{file_store, Durable, db_store, StateCodec}
use liquidity_scope.Aggregate.State.Recovery.{load-save_progress, save_progress_fails-keeps}
use liquidity_scope.Prelude.Dict
use liquidity_scope.Prelude.Int.{pos}
use liquidity_scope.Text.{Text, codes, trim_space, to_lower}
use liquidity_scope.Text.Decimal.{set_string}
use liquidity_scope.Model.{TypedEventRecord, SwapEventData}
use liquidity_scope.Chain.{new_client, Node}
use liquidity_scope.Storage.Postgres
use liquidity_scope.Aggregate.Window.{window_start, window_end}
use liquidity_scope.Aggregate.Accumulator.{
  Accumulator, new_accumulator, add_event, apply_swap, apply_amounts, observe, parse_big_int,
}
use liquidity_scope.Aggregate.Accumulator.Totals.{swap_of}
use liquidity_scope.Aggregate.State
use liquidity_scope.Aggregate.Session.{Config, Env, Session, new_session, pool_key}
use liquidity_scope.Aggregate.Tokens.{
  get_token_decimals, fetch_token_decimals, fetch_tvl, get_balance,
}
use liquidity_scope.Dex.TokenMeta.{fetch_token_meta}
use liquidity_scope.Aggregate.Flush.{flush_accumulator, register_pool}
use mathlib.Core.List.Perm
use mathlib.Core.List.{mem-cons, not-mem-nil}
use mathlib.Core.Logic.Or
use native.Mathlib.Bridge.{le_prop}
use liquidity_scope.Aggregate.Run.{
  Error, handle_lines, handle_line, handle_record, ensure_window, open_window, close_window,
  add_to_window, after_add, write_if_full, save_state, save_to_store, with_durable, finish,
  close_windows, flush_batches, upsert_pools, upsert_metrics, process, load_start_timestamp, run,
}
use liquidity_scope.Aggregate.Run.Windows.{track, events_of, lookup-handle_lines}
use liquidity_scope.Aggregate.Run.Current.{handle_lines-totals}
use liquidity_scope.Aggregate.Run.Progress.{save_state-resumes}
use liquidity_scope.Aggregate.Run.Latest.{IsGreatest, times_of, run-saves}

abbrev pub amounts : String → String → SwapEventData
amounts a b = record {
  sender = [];
  recipient = [];
  amount0 = codes a;
  amount1 = codes b;
  sqrt_price_x96 = [];
  liquidity = [];
  tick = pos 0;
}

abbrev pub unmarshal_amounts : Text → Option SwapEventData
unmarshal_amounts t =
    if t == codes "1"
    then some (amounts "-5" "1000")
    else if t == codes "2"
    then some (amounts "2000" "-3")
    else if t == codes "3"
    then some (amounts "3000" "-4")
    else none

abbrev pub event : String → ℕ → ℕ → TypedEventRecord
event payload block ts = record {
  chain_id = 1;
  block_number = block;
  block_hash = [];
  tx_hash = [];
  log_index = 0;
  address = codes "0xAB";
  event_name = codes "Swap";
  timestamp = ts;
  decoded = codes payload;
  pool_meta = record {
    token0 = codes "0x01";
    token1 = codes "0x02";
    fee = 3000;
    tick_spacing = pos 60;
    liquidity = [];
    slot0 = none;
  };
  raw = none;
}

abbrev unmarshal_line : Text → Option TypedEventRecord
unmarshal_line t =
    if t == codes "a"
    then some (event "1" 7 25)
    else if t == codes "b"
    then some (event "2" 8 31)
    else if t == codes "c"
    then some (event "3" 9 39)
    else none

abbrev no_node : Node
no_node = record {
  chain_id = λ _. ok 1;
  latest_block = λ _. ok 9;
  header_time = λ _ number. ok number;
  find_logs = λ _ _. ok [];
  call = λ _ _ _. ok [];
}

abbrev env : Env
env = record {
  eth = plain_eth;
  node = no_node;
  os = record { fault = λ _. none; torn = λ _. []; parent_is_dot = λ _. true };
  faults = λ _. none;
  codec = record { encode = λ _ _. []; decode = λ _. none };
  unmarshal_event = unmarshal_line;
  unmarshal_swap = unmarshal_amounts;
  range_order = λ accs. accs;
}

abbrev cfg : Config
cfg = record {
  window_seconds = 10;
  batch_size = pos 1000;
  recompute_from = 0;
  state_store = db_store (codes "aggregate");
}

abbrev empty : Durable
empty = record {
  disk = record { entries = []; clock = 0 };
  store = record { pools = []; metrics = []; states = []; clock = 0 };
}

abbrev at_start : Session
at_start = new_session new_client empty 0

abbrev lines : List Text
lines = codes "a" ∷ codes "" ∷ codes " b" ∷ codes "?" ∷ codes "c" ∷ []

handle_lines-totals_example :
    (a : Accumulator) × (Dict.lookup
        (codes "0xab")
        (handle_lines env cfg 0 lines at_start).1.accumulators
      ≡ some a)
    × (a.window_start ≡ 30)
    × (a.swap_count ≡ 2)
    × (a.volume0 ≡ pos 5000)
    × (a.volume1 ≡ pos 7)
    × (a.fee0 ≡ pos 15)
    × (a.fee1 ≡ pos 0)
unfolding handle_lines handle_line handle_record ensure_window open_window close_window
    add_to_window after_add write_if_full flush_accumulator window_start window_end new_accumulator
    add_event apply_swap apply_amounts observe parse_big_int swap_of set_string pool_key to_lower
    trim_space get_token_decimals fetch_token_decimals fetch_token_meta
handle_lines-totals_example =
    handle_lines-totals env cfg 0 30 lines at_start (codes "0xab") (event "1" 7 25 ∷ [])
      (event "2" 8 31) (event "3" 9 39 ∷ []) refl refl (λ h. absurd (omega (arith, h)))
      (refl, (refl, tt))

lookup-handle_lines_example :
    Dict.lookup (codes "0xab") (handle_lines env cfg 0 lines at_start).1.accumulators
    ≡ track env cfg (event "1" 7 25 ∷ event "2" 8 31 ∷ event "3" 9 39 ∷ []) none
unfolding handle_lines handle_line handle_record ensure_window open_window close_window
    add_to_window after_add write_if_full flush_accumulator window_start window_end new_accumulator
    add_event apply_swap apply_amounts observe parse_big_int swap_of set_string pool_key to_lower
    trim_space get_token_decimals fetch_token_decimals fetch_token_meta
lookup-handle_lines_example = lookup-handle_lines env cfg 0 lines at_start (codes "0xab") refl

abbrev behind_lines : Session
behind_lines = record at_start {
  accumulators = (codes "0xab", new_accumulator (event "2" 8 31) 30 40) ∷ [];
  max_ts = 39;
}

save_state-resumes_example :
    (ts : ℕ) × (Dict.lookup
        (codes "aggregate")
        (save_state env cfg 0 behind_lines).1.durable.store.states
      ≡ some ts)
    × (ts < 31)
unfolding save_state save_to_store with_durable State.save Postgres.save_state window_start
    new_accumulator
save_state-resumes_example =
    save_state-resumes env cfg (codes "aggregate") 0 behind_lines (codes "0xab")
      (new_accumulator (event "2" 8 31) 30 40) (event "2" 8 31) (omega arith) refl
      (λ accs. Perm.refl accs)
      (λ b m.
        Or.elim le_prop (mem-cons.0 m) (λ e. rw e (omega arith)) (λ m'. absurd (not-mem-nil m')))
      refl refl refl

run-saves_example :
    (start_ts : ℕ) × (saved : ℕ) × ((load_start_timestamp env cfg empty).0 ≡ ok start_ts)
    × (Dict.lookup
          (codes "aggregate")
          (run env cfg (ok (lines, none)) new_client empty).1.store.states
        ≡ some saved)
    × IsGreatest saved (start_ts ∷ times_of env cfg (events_of env cfg start_ts lines))
unfolding run process load_start_timestamp State.load Postgres.load_state handle_lines handle_line
    handle_record ensure_window open_window close_window add_to_window after_add write_if_full
    flush_accumulator window_start window_end new_accumulator add_event apply_swap apply_amounts
    observe parse_big_int swap_of set_string pool_key to_lower trim_space get_token_decimals
    fetch_token_decimals fetch_token_meta finish close_windows flush_batches upsert_pools
    upsert_metrics save_state save_to_store with_durable State.save Postgres.save_state
    Postgres.upsert_pools Postgres.upsert_window_metrics fetch_tvl get_balance register_pool
run-saves_example = run-saves env cfg (codes "aggregate") lines none new_client empty refl refl

abbrev file_codec : StateCodec
file_codec = record {
  encode = λ now ts. ts ∷ now ∷ [];
  decode = λ t. elim t [ [] ↦ none | ◌∷◌ ts rest ↦ some ts ];
}

load-save_progress_example :
    (State.load env.os env.faults file_codec
      (file_store (codes "state.json"))
      (State.save env.os env.faults file_codec (file_store (codes "state.json")) 39 empty).1).0
    ≡ ok (some 39)
unfolding State.save State.save_file Files.replace_file Files.make_parent Files.write_file
    Files.rename
load-save_progress_example =
    load-save_progress env.os env.faults file_codec (file_store (codes "state.json")) 39 empty refl
      (λ now t. refl) refl refl

abbrev refusing : ℕ → Option Error
refusing n = some zero_window

save_progress_fails-keeps_example :
    Dict.lookup
      (codes "aggregate")
      (State.save env.os refusing file_codec (db_store (codes "aggregate")) 39 empty).1.store.states
    ≡ none
unfolding State.save Postgres.save_state
save_progress_fails-keeps_example =
    save_progress_fails-keeps env.os refusing file_codec (db_store (codes "aggregate")) 39 empty
      refl
