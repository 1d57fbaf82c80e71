-- ===== src/Indexer/Runner/Count.antt =====
-- How often a log stands among records, for `Runner` of internal/indexer/runner.go.
use liquidity_scope.Prelude.{
  ℕ, zero, suc, ◌+◌, ◌≤◌, ◌≡◌, refl, Option, none, some, List, [], ◌∷◌, ◌++◌, arith, ◌==◌, nat_eq,
  list_eq, pair_eq, if◌then◌else◌, Result, ok, err,
}
use liquidity_scope.Dex.Library.{Ethereum}
use liquidity_scope.Errors.{Error}
use liquidity_scope.Text.{Text}
use liquidity_scope.Model.{LogRecord}
use liquidity_scope.Chain.{Log}
use liquidity_scope.Storage.Jsonl.{Sink, SinkFaults, put_log_batch, take}
use liquidity_scope.Indexer.Runner.{log_id, build_log_record}

-- The identity under which `isDuplicate` knew the log of a record.
abbrev pub record_id : LogRecord → Text
record_id r = log_id r.block_number r.tx_hash r.log_index

-- How many of the records have this identity.
abbrev pub times : Text → List LogRecord → ℕ
times k [] = 0
times k (r ∷ rs) = (if record_id r == k then 1 else 0) + times k rs

abbrev pub known_once : Option (Unit {0}) → ℕ
known_once none = 0
known_once (some _) = 1

pub known_once_le : (o : Option (Unit {0})) → known_once o ≤ 1
known_once_le none = omega arith
known_once_le (some _) = omega arith

abbrev pub times_of : Text → Result Error (List LogRecord) → ℕ
times_of k (err e) = 0
times_of k (ok rs) = times k rs

pub times-append :
    (k : Text) (xs ys : List LogRecord) → times k (xs ++ ys) ≡ times k xs + times k ys
times-append k [] ys = ground arith
times-append k (x ∷ xs) ys = ground (arith, times-append k xs ys)

times-take : (k : Text) (n : ℕ) (xs : List LogRecord) → times k (take n xs) ≤ times k xs
times-take k zero xs = omega arith
times-take k (suc n) [] = omega arith
times-take k (suc n) (x ∷ xs) = ground (arith, times-take k n xs)

pub put_log_batch-times :
    (faults : SinkFaults) (k : Text) (rs : List LogRecord) (s : Sink)
    → times k (put_log_batch faults rs s).1.lines ≤ times k s.lines + times k rs
unfolding put_log_batch
put_log_batch-times faults k [] s = omega arith
put_log_batch-times faults k (r ∷ rs) s = ground (
  arith,
  times-append k s.lines (r ∷ rs),
  times-append k s.lines (take (faults.kept s.clock) (r ∷ rs)),
  times-take k (faults.kept s.clock) (r ∷ rs),
)

pub record_id-build :
    (eth : Ethereum) (c : ℕ) (log : Log) (ts : ℕ) (now : Text)
    → record_id (build_log_record eth c log ts now)
      ≡ log_id log.block_number (eth.hash_hex log.tx_hash) log.index
unfolding build_log_record
record_id-build eth c log ts now = refl
