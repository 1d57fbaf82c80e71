-- ===== src/Indexer/Tests.antt =====
-- Retries, checkpoints and a run of the indexer at concrete inputs.
use liquidity_scope.Prelude.{
  ℕ, ◌+◌, ◌≤◌, ◌≡◌, refl, sym, Bool, true, false, none, some, List, [], ◌∷◌, arith, ltb, ◌==◌,
  nat_eq, list_eq, pair_eq, if◌then◌else◌, Result, ok, err, replicate, ok_inj,
}
use liquidity_scope.Dex.Sample.{plain_eth}
use liquidity_scope.Indexer.Runner.{
  last_block, with_checkpoint, resume_from, sync, process_range, filter_logs_with_retry,
  collect_records, is_duplicate, block_timestamp_with_retry, store_range, log_id, Outside,
  RunConfig, Runner, run, process_ranges, build_log_record,
}
use liquidity_scope.Storage.Files.{
  stat, read_file, rename, write_file, make_parent, replace_file, Os, Disk, file, entry_at,
}
use liquidity_scope.Indexer.Runner.Stored.{Stored}
use liquidity_scope.Indexer.Range.{split_range, BlockRange}
use liquidity_scope.Errors.{bad_data, Error, no_such_file}
use liquidity_scope.Dex.Abi.{swap_event, indexed_arguments}
use liquidity_scope.Dex.Events.{parse_indexed_topics, unpack_non_indexed}
use liquidity_scope.Indexer.Runner.Timed.{Timed, run-Timed}
use liquidity_scope.Indexer.Runner.Decoded.{parse-build_log_record}
use liquidity_scope.Chain.{
  Hash, filter_logs, block_timestamp, Log, Node, new_client, get_chain_id, Client,
}
use liquidity_scope.Storage.Jsonl.{put_log_batch}
use liquidity_scope.Text.Decimal.{format_nat}
use liquidity_scope.Prelude.Dict
use liquidity_scope.Prelude.Int.{pos}
use liquidity_scope.Text.{Text, codes}
use liquidity_scope.Indexer.Retry.{retry_loop, with_retry}
use liquidity_scope.Indexer.Retry.Attempts.{with_retry-count, with_retry-succeeds}
use liquidity_scope.Indexer.Checkpoint.{CheckpointStore, CheckpointCodec, save, load}
use liquidity_scope.Indexer.Checkpoint.Recovery.{load-save, save_fails-keeps}
use liquidity_scope.Indexer.Runner.Count.{times, known_once}
use liquidity_scope.Indexer.Runner.Once.{run-writes_once}

-- The state counts the attempts; the first two fail.
abbrev attempt : ℕ → Result Error ℕ × ℕ
attempt n = (if ltb n 2 then err no_such_file else ok (n + 40), n + 1)

abbrev wait : ℕ → ℕ → Bool × ℕ
wait delay n = (false, n)

with_retry-count_example :
    (0 + 1 ≤ (with_retry wait attempt (pos 3) 0 0).1)
    × ((with_retry wait attempt (pos 3) 0 0).1 ≤ 0 + 3 + 1)
with_retry-count_example =
    with_retry-count wait attempt (λ n. n) (λ s. refl) (λ delay s. refl) (pos 3) 0 0

with_retry-succeeds_example : (with_retry wait attempt (pos 3) 0 0).0 ≡ ok 42
with_retry-succeeds_example =
    with_retry-succeeds wait attempt 2 (pos 3) 0 0 42 (omega arith) (refl, refl, (refl, refl, refl))

abbrev sound_disk : Os
sound_disk = record { fault = λ _. none; torn = λ _. []; parent_is_dot = λ _. true }

-- The rename, the second request, fails.
abbrev stuck_disk : Os
stuck_disk = record {
  fault = λ n. if n == 1 then some no_such_file else none;
  torn = λ _. [];
  parent_is_dot = λ _. true;
}

-- A block of n as the text of its number and the time behind it.
abbrev codec : CheckpointCodec
codec = record {
  encode = λ cp. cp.last_processed_block ∷ cp.updated_at;
  decode = λ t. elim t [
    | [] ↦ none
    | ◌∷◌ n at ↦ some (record { last_processed_block = n; updated_at = at })
  ];
  now = λ n. n ∷ [];
}

abbrev store : CheckpointStore
store = record { path = codes "checkpoint.json"; enabled = true }

abbrev at_seven : Disk
at_seven = record { entries = (codes "checkpoint.json", file (7 ∷ [])) ∷ []; clock = 0 }

load-save_example :
    (load sound_disk codec store (save sound_disk codec store 9 at_seven).1).0
    ≡ ok (some (record { last_processed_block = 9; updated_at = 0 ∷ [] }))
unfolding save replace_file make_parent write_file rename
load-save_example = load-save sound_disk codec store 9 at_seven refl (λ cp. refl) refl refl refl

save_fails-keeps_example :
    entry_at (codes "checkpoint.json") (save stuck_disk codec store 9 at_seven).1
    ≡ some (file (7 ∷ []))
unfolding save replace_file make_parent write_file rename
save_fails-keeps_example = save_fails-keeps stuck_disk codec store 9 at_seven refl

abbrev log_in : ℕ → Log
log_in block = record {
  address = codes "0xab";
  topics = [];
  payload = [];
  block_number = block;
  block_hash = [];
  tx_hash = codes "0xcd";
  tx_index = 0;
  index = 3;
  removed = false;
}

-- Every answer has the log of block 8 twice; the fourth request fails.
abbrev node : Node
node = record {
  chain_id = λ _. ok 1;
  latest_block = λ _. ok 11;
  header_time = λ _ number. ok number;
  find_logs = λ n _. if n == 3 then err no_such_file else ok (log_in 8 ∷ log_in 8 ∷ []);
  call = λ _ _ _. ok [];
}

abbrev out : Outside
out = record {
  eth = plain_eth;
  node = node;
  os = sound_disk;
  codec = codec;
  faults = record { fault = λ _. none; kept = λ _. 0 };
  is_cancelled = λ _. false;
  wait = λ _ c. (true, c);
  ingested_at = λ _. [];
}

abbrev cfg : RunConfig
cfg = record {
  from_block = 0;
  to_block = 11;
  addresses = codes "0xab" ∷ [];
  topic0 = [];
  batch_size = 2;
  checkpoint = store;
  max_retries = pos 1;
  retry_backoff = 0;
}

-- One batch for both blocks.
abbrev quick : RunConfig
quick = record cfg { batch_size = 100 }

abbrev runner : Runner
runner = record {
  client = new_client;
  seen = [];
  sink = record { lines = []; clock = 0 };
  disk = at_seven;
}

abbrev identity : Text
identity = codes "8:0xcd:3"

run-writes_once_example :
    (times identity (run out cfg runner).1.sink.lines ≤ 1)
    × (times identity (run out cfg runner).1.sink.lines
        ≤ known_once (Dict.lookup identity (run out cfg runner).1.seen))
run-writes_once_example = run-writes_once out cfg identity runner (omega arith)

abbrev two_ranges : List BlockRange
two_ranges =
    record { from_block = 8; to_block = 9 } ∷ record { from_block = 10; to_block = 11 } ∷ []

-- A run for the blocks from 8 to 9 that stops behind its first range, as the fourth request fails.
-- The requests of a later run are counted from 10.
abbrev one_by_one : RunConfig
one_by_one = record cfg { from_block = 8; to_block = 9; batch_size = 1; max_retries = pos 0 }

abbrev afresh : Runner
afresh = record runner { disk = record { entries = []; clock = 0 } }

abbrev later : Client
later = record new_client { clock = 10 }

test_first_run : (run out one_by_one afresh).0 ≡ err no_such_file
unfolding run last_block with_checkpoint resume_from load stat read_file sync process_ranges
    process_range filter_logs_with_retry with_retry retry_loop filter_logs collect_records
    is_duplicate block_timestamp_with_retry block_timestamp store_range put_log_batch save
    replace_file make_parent write_file rename log_id format_nat split_range get_chain_id
test_first_run = refl

abbrev short_hash : Hash
short_hash = replicate 32 7

abbrev sample_log : Log
sample_log = record (log_in 3) { topics = short_hash ∷ short_hash ∷ short_hash ∷ [] }

parse-build_log_record_example :
    (parse_indexed_topics plain_eth swap_event
        (build_log_record plain_eth 1 sample_log 25 []).topics
      ≡ ok (short_hash ∷ short_hash ∷ []))
    × (unpack_non_indexed plain_eth swap_event
          (build_log_record plain_eth 1 sample_log 25 []).payload
        ≡ err bad_data)
unfolding indexed_arguments
parse-build_log_record_example =
    parse-build_log_record plain_eth swap_event 1 sample_log 25 [] short_hash
      (short_hash ∷ short_hash ∷ [])
      (record { payload = λ t. refl; hash = λ h size. refl; bytes = λ h size. refl }) refl
      (refl, (refl, tt)) refl

run-Timed_example : Timed (λ n. n) (run out cfg runner).1
run-Timed_example =
    run-Timed out cfg (λ n. n)
      (record { header = λ clock number ts e. sym (ok_inj e); waiting = λ delay c. refl }) runner
      (λ number ts e. absurd (cc e), tt)
