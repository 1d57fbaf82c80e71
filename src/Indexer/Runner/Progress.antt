-- ===== src/Indexer/Runner/Progress.antt =====
-- How far the checkpoint of `Runner` (internal/indexer/runner.go) is when a run stops.
use liquidity_scope.Prelude.{
  ℕ, ◌≡◌, refl, ap, ◌∙◌, inl, inr, true, Option, some, List, [], ◌∷◌, ◌++◌, nat_eq, list_eq,
  pair_eq, Result, ok, err, is_ok, Bool-cases, Result-cases,
}
use liquidity_scope.Errors.{Error}
use liquidity_scope.Text.{Text}
use liquidity_scope.Model.{LogRecord}
use liquidity_scope.Chain.{Log}
use liquidity_scope.Storage.Files.{Entry, file, entry_at}
use liquidity_scope.Indexer.Checkpoint
use liquidity_scope.Indexer.Checkpoint.{Checkpoint, checkpoint_at}
use liquidity_scope.Storage.Files.Replace.{Leaves-ok}
use liquidity_scope.Indexer.Checkpoint.Recovery.{save_fails-keeps, save-Leaves}
use liquidity_scope.Indexer.Range.{BlockRange}
use liquidity_scope.Storage.Jsonl.{put_log_batch}
use liquidity_scope.Indexer.Runner.{
  Outside, RunConfig, Runner, is_duplicate, block_timestamp_with_retry, build_log_record,
  filter_logs_with_retry, collect_records, store_range, process_range,
}

module _ (out : Outside) (cfg : RunConfig) where
  -- The entry is the file of a checkpoint of this block.
  abbrev pub Saved : ℕ → Option Entry → Type 0
  Saved block e =
      (cp : Checkpoint) × (cp.last_processed_block ≡ block)
      × (e ≡ some (file (out.codec.encode cp)))

  -- Behind these ranges the entry is the checkpoint of the last of them; behind none it is as `P`
  -- says.
  abbrev pub Reached : (Option Entry → Type 0) → List BlockRange → Option Entry → Type 0
  Reached P [] e = P e
  Reached P (range ∷ ranges) e = Reached (Saved range.to_block) ranges e

  abbrev pub checkpoint_entry : Runner → Option Entry
  checkpoint_entry r = entry_at cfg.checkpoint.path r.disk

  collect_records-disk :
      (chain_id : ℕ) (now : Text) (logs : List Log) (records : List LogRecord) (r : Runner)
      → (collect_records out cfg chain_id now logs records r).1.disk ≡ r.disk
  unfolding collect_records
  collect_records-disk chain_id now [] records r = refl
  collect_records-disk chain_id now (log ∷ logs) records r =
      let (known, seen) = is_duplicate out cfg log r.seen in
      let (answer, client) = block_timestamp_with_retry out cfg log.block_number r.client in
      elim (Bool-cases known) [
        | inl e ↦ rw e (collect_records-disk chain_id now logs records r)
        | inr e ↦ elim (Result-cases answer) [
          | inl (_, f) ↦ rw (e, f) refl
          | inr (ts, f) ↦
              rw (e, f)
                (collect_records-disk chain_id now logs
                  (records ++ build_log_record out.eth chain_id log ts now ∷ [])
                  (record r { seen = seen; client = client }))
        ]
      ]

  -- How a step leaves the checkpoint: of the block on success, as it was on failure.
  abbrev pub Steps : ℕ → Runner → Result Error Unit → Runner → Type 0
  Steps block r (ok _) r' = Saved block (checkpoint_entry r')
  Steps block r (err _) r' = checkpoint_entry r' ≡ checkpoint_entry r

  Steps-base :
      (block : ℕ) (r r' : Runner) (result : Result Error Unit) (r'' : Runner)
      → checkpoint_entry r' ≡ checkpoint_entry r
      → Steps block r' result r''
      → Steps block r result r''
  Steps-base block r r' (ok _) r'' same h = h
  Steps-base block r r' (err _) r'' same h = h ∙ same

  store_range-Steps :
      (block : ℕ) (records : List LogRecord) (r : Runner)
      → cfg.checkpoint.enabled ≡ true
      → Steps block r
          (store_range out cfg block records r).0
          (store_range out cfg block records r).1
  unfolding store_range
  store_range-Steps block records r on =
      let (stored, sink) = put_log_batch out.faults records r.sink in
      let (saved, disk) = Checkpoint.save out.os out.codec cfg.checkpoint block r.disk in
      let cp = checkpoint_at out.os out.codec cfg.checkpoint block r.disk in
      elim (Result-cases stored) [
        | inl (_, e) ↦ rw (store_range, e) refl
        | inr (_, e) ↦ elim (Result-cases saved) [
          | inl (x, f) ↦
              rw (store_range, e, f)
                (save_fails-keeps out.os out.codec cfg.checkpoint block r.disk (ap is_ok f))
          | inr (_, f) ↦
              rw (store_range, e, f)
                (
                  cp,
                  refl,
                  Leaves-ok out.os cfg.checkpoint.path (file (out.codec.encode cp)) r.disk
                      (Checkpoint.save out.os out.codec cfg.checkpoint block r.disk)
                      (save-Leaves out.os out.codec cfg.checkpoint block r.disk on) f,
                )
        ]
      ]

  pub process_range-Steps :
      (chain_id : ℕ) (range : BlockRange) (r : Runner)
      → cfg.checkpoint.enabled ≡ true
      → Steps range.to_block r
          (process_range out cfg chain_id range r).0
          (process_range out cfg chain_id range r).1
  unfolding process_range
  process_range-Steps chain_id range r on = elim (Bool-cases (out.is_cancelled r.client.clock)) [
    | inl stop ↦ rw stop refl
    | inr go ↦
        let (answer, client) =
          filter_logs_with_retry out cfg range.from_block range.to_block r.client in
        let r' = record r { client = client } in
        elim (Result-cases answer) [
          | inl (e, f) ↦ rw (go, f) refl
          | inr (logs, f) ↦
              let now = out.ingested_at client.clock in
              let (collected, r'') = collect_records out cfg chain_id now logs [] r' in
              let same : r''.disk ≡ r.disk = collect_records-disk chain_id now logs [] r' in
              let before = ap (entry_at cfg.checkpoint.path) same in
              elim (Result-cases collected) [
                | inl (e, g) ↦ rw (go, f, g) before
                | inr (records, g) ↦
                    rw (go, f, g)
                      (Steps-base range.to_block r r''
                        (store_range out cfg range.to_block records r'').0
                        (store_range out cfg range.to_block records r'').1 before
                        (store_range-Steps range.to_block records r'' on))
              ]
        ]
  ]
