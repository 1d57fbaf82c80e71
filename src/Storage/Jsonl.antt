-- ===== src/Storage/Jsonl.antt =====
-- internal/storage/jsonl.go: the file of log records, as the list of its lines. Which batches fail
-- is a parameter, and with them how many of the batch's lines the file got before the failure; a part
-- of a line that such a failure may leave is not kept.
use liquidity_scope.Prelude.{
  ℕ, zero, suc, ◌+◌, Option, none, some, List, [], ◌∷◌, ◌++◌, nat_eq, list_eq, pair_eq, Result, ok,
  err,
}
use liquidity_scope.Errors.{Error}
use liquidity_scope.Model.{LogRecord}

pub record Sink : Type 0 where
  pub lines : List LogRecord
  pub clock : ℕ

pub record SinkFaults : Type 0 where
  pub fault : ℕ → Option Error
  pub kept : ℕ → ℕ

abbrev pub take {ℓ} : {A : Type ℓ} → ℕ → List A → List A
take zero xs = []
take (suc n) [] = []
take (suc n) (x ∷ xs) = x ∷ take n xs

module _ (faults : SinkFaults) where
  -- `PutLogBatch`
  unfoldable pub put_log_batch : List LogRecord → Sink → Result Error Unit × Sink
  put_log_batch [] s = (ok tt, s)
  put_log_batch (r ∷ rs) s = elim (faults.fault s.clock) [
    | none ↦ (ok tt, record { lines = s.lines ++ (r ∷ rs); clock = s.clock + 1 })
    | some e ↦ (
      err e,
      record { lines = s.lines ++ take (faults.kept s.clock) (r ∷ rs); clock = s.clock + 1 },
    )
  ]
