-- ===== src/Indexer/Runner/Once.antt =====
-- That `Runner` of internal/indexer/runner.go writes no log twice.
use liquidity_scope.Prelude.{
  ℕ, ◌+◌, ◌≤◌, ◌≡◌, inl, inr, true, false, none, some, List, [], ◌∷◌, ◌++◌, arith, ◌==◌, nat_eq,
  list_eq, pair_eq, if◌then◌else◌, Result, Bool-cases, Option-cases, list_beq_iff, Result-cases,
}
use liquidity_scope.Prelude.Dict
use liquidity_scope.Prelude.Dict.{Dict, lookup-insert}
use liquidity_scope.Errors.{Error}
use liquidity_scope.Text.{Text}
use liquidity_scope.Model.{LogRecord}
use liquidity_scope.Chain.{Log}
use liquidity_scope.Indexer.Range.{BlockRange}
use liquidity_scope.Indexer.Runner.Invariant.{IsInvariant, run_keeps}
use liquidity_scope.Indexer.Runner.{
  run, filter_logs_with_retry, block_timestamp_with_retry, Outside, RunConfig, Runner, id_of,
  build_log_record, is_duplicate, collect_records, store_range, process_range,
}
use liquidity_scope.Indexer.Runner.Count.{
  record_id, times, known_once, known_once_le, times_of, times-append, put_log_batch-times,
  record_id-build,
}

-- The lines written so far and `n` more records with the identity `k` are covered by what is known.
Covers : Text → Runner → ℕ → Type 0
Covers k r n = times k r.sink.lines + n ≤ known_once (Dict.lookup k r.seen)

-- The same for an answer of `collect_records`.
CoversAll : Text → Result Error (List LogRecord) × Runner → Type 0
unfolding Covers
CoversAll k p = Covers k p.1 (times_of k p.0)

module _ (out : Outside) (cfg : RunConfig) where
  known-insert :
      (k j : Text) (seen : Dict Text (Unit {0}))
      → Dict.lookup j seen ≡ none
      → known_once (Dict.lookup k (Dict.insert j tt seen))
        ≡ known_once (Dict.lookup k seen) + (if j == k then 1 else 0)
  known-insert k j seen e = ground (arith, lookup-insert j k tt seen, list_beq_iff j k)

  pub is_duplicate-known :
      (log : Log) (seen : Dict Text (Unit {0})) (u : Unit {0})
      → Dict.lookup (id_of out cfg log) seen ≡ some u
      → (is_duplicate out cfg log seen).0 ≡ true
  unfolding is_duplicate
  is_duplicate-known log seen u e = ground arith

  pub is_duplicate-new :
      (k : Text) (log : Log) (seen : Dict Text (Unit {0}))
      → Dict.lookup (id_of out cfg log) seen ≡ none
      → ((is_duplicate out cfg log seen).0 ≡ false)
        × (known_once (Dict.lookup k (is_duplicate out cfg log seen).1)
            ≡ known_once (Dict.lookup k seen) + (if id_of out cfg log == k then 1 else 0))
  unfolding is_duplicate
  is_duplicate-new k log seen e = ground (arith, known-insert k (id_of out cfg log) seen e)

  collect_records-Covers :
      (k : Text) (chain_id : ℕ) (now : Text) (logs : List Log) (records : List LogRecord)
      (r : Runner)
      → Covers k r (times k records)
      → CoversAll k (collect_records out cfg chain_id now logs records r)
  unfolding collect_records Covers
  collect_records-Covers k chain_id now [] records r h = unfold CoversAll Covers in h
  collect_records-Covers k chain_id now (log ∷ logs) records r h =
      let j = id_of out cfg log in
      elim (Option-cases (Dict.lookup j r.seen)) [
        | inr (u, e) ↦
            rw (is_duplicate-known log r.seen u e)
              (collect_records-Covers k chain_id now logs records r h)
        | inl e ↦
            let (answer, client) = block_timestamp_with_retry out cfg log.block_number r.client in
            let r' = record r { seen = (is_duplicate out cfg log r.seen).1; client = client } in
            let (new, more) = is_duplicate-new k log r.seen e in
            elim (Result-cases answer) [
              | inl (_, f) ↦ rw (new, f) (unfold CoversAll Covers in (omega (arith, h, more)))
              | inr (ts, f) ↦
                  let rec = build_log_record out.eth chain_id log ts now in
                  let same : record_id rec ≡ j = record_id-build out.eth chain_id log ts now in
                  rw (new, f)
                    (collect_records-Covers k chain_id now logs (records ++ rec ∷ []) r'
                      (ground (arith, times-append k records (rec ∷ []), h, more, same)))
            ]
      ]

  store_range-Covers :
      (k : Text) (last : ℕ) (records : List LogRecord) (r : Runner)
      → Covers k r (times k records)
      → Covers k (store_range out cfg last records r).1 0
  unfolding Covers store_range
  store_range-Covers k last records r h =
      ground (arith, put_log_batch-times out.faults k records r.sink)

  process_range-Covers :
      (k : Text) (chain_id : ℕ) (range : BlockRange) (r : Runner)
      → Covers k r 0
      → Covers k (process_range out cfg chain_id range r).1 0
  unfolding process_range
  process_range-Covers k chain_id range r h = elim (Bool-cases (out.is_cancelled r.client.clock)) [
    | inl stop ↦ rw stop h
    | inr go ↦
        let (answer, client) =
          filter_logs_with_retry out cfg range.from_block range.to_block r.client in
        let r' = record r { client = client } in
        let h' : Covers k r' 0 = unfold Covers in h in
        elim (Result-cases answer) [
          | inl (e, f) ↦ rw (go, f) h'
          | inr (logs, f) ↦
              let now = out.ingested_at client.clock in
              let (collected, r'') = collect_records out cfg chain_id now logs [] r' in
              let all = collect_records-Covers k chain_id now logs [] r' h' in
              elim (Result-cases collected) [
                | inl (e, g) ↦ rw (go, f, g) (unfold CoversAll in (rw g at all))
                | inr (records, g) ↦
                    rw (go, f, g)
                      (store_range-Covers k range.to_block records r''
                        (unfold CoversAll in (rw g at all)))
              ]
        ]
  ]

  Covers-IsInvariant : (k : Text) → IsInvariant out cfg (λ r. Covers k r 0)
  unfolding Covers
  Covers-IsInvariant k = record {
    disk = λ r d h. h;
    client = λ r c same h. h;
    range = λ chain_id range r h. process_range-Covers k chain_id range r h;
  }

  -- Take an identity: block, transaction and log index. If it stands on no line of the file, or on
  -- one line and is known, then whatever the node, the file system and the sink answer, and wherever
  -- the run stops, it stands on one line at most behind the run, and is known if it stands there.
  pub run-writes_once :
      (k : Text) (r : Runner)
      → times k r.sink.lines ≤ known_once (Dict.lookup k r.seen)
      → (times k (run out cfg r).1.sink.lines ≤ 1)
        × (times k (run out cfg r).1.sink.lines ≤ known_once (Dict.lookup k (run out cfg r).1.seen))
  run-writes_once k r h =
      let covered : times k (run out cfg r).1.sink.lines + 0
          ≤ known_once (Dict.lookup k (run out cfg r).1.seen) =
        unfold Covers in
        run_keeps out cfg (λ r. Covers k r 0) (Covers-IsInvariant k) r (omega (arith, h)) in
      let most = known_once_le (Dict.lookup k (run out cfg r).1.seen) in
      (omega (arith, covered, most), omega (arith, covered))
