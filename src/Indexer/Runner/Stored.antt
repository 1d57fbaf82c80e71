-- ===== src/Indexer/Runner/Stored.antt =====
-- What a range of `Runner` (internal/indexer/runner.go) that was got through has left in the file.
use liquidity_scope.Prelude.{
  ℕ, ◌+◌, ◌≤◌, ◌≡◌, refl, sym, ap, ◌∙◌, subst, inl, inr, none, some, List, [], ◌∷◌, ◌++◌,
  append-nil, arith, ◌==◌, nat_eq, list_eq, pair_eq, beq_refl, if◌then◌else◌, ok, Bool-cases,
  Option-cases, is_empty, All, All-map, Result-cases, ok_inj,
}
use liquidity_scope.Prelude.Dict
use liquidity_scope.Text.{Text}
use liquidity_scope.Model.{LogRecord}
use liquidity_scope.Chain.{Client, Log}
use liquidity_scope.Storage.Jsonl.{Sink, put_log_batch, take}
use liquidity_scope.Indexer.Range.{BlockRange}
use liquidity_scope.Indexer.Runner.{
  Outside, RunConfig, Runner, id_of, is_duplicate, block_timestamp_with_retry, build_log_record,
  collect_records, store_range,
}
use liquidity_scope.Indexer.Runner.Count.{times, times-append, record_id, record_id-build}
use liquidity_scope.Indexer.Runner.Once.{is_duplicate-known, is_duplicate-new}

-- No line is lost between these states.
abbrev pub Grows : Runner → Runner → Type 0
Grows r r' = (k : Text) → times k r.sink.lines ≤ times k r'.sink.lines

-- Every identity that is known stands on a line of the file.
abbrev pub KnownOnFile : Runner → Type 0
KnownOnFile r = (k : Text) (u : Unit {0}) → Dict.lookup k r.seen ≡ some u → 1 ≤ times k r.sink.lines

module _ (out : Outside) (cfg : RunConfig) where
  -- The node has answered with these logs when it was asked for the range.
  abbrev pub Answered : BlockRange → List Log → Type 0
  Answered range logs =
      (clock : ℕ) × (out.node.find_logs clock (record {
        from_block = range.from_block;
        to_block = range.to_block;
        addresses = cfg.addresses;
        topics = if is_empty cfg.topic0 then [] else cfg.topic0 ∷ [];
      })
        ≡ ok logs)

  -- Each of the logs that the node has answered for the range stands on a line of the file.
  abbrev pub Stored : Runner → BlockRange → Type 0
  Stored r range =
      (logs : List Log) × Answered range logs
      × All (λ (log : Log). 1 ≤ times (id_of out cfg log) r.sink.lines) logs

  pub Stored-Grows :
      (r r' : Runner) (range : BlockRange) → Grows r r' → Stored r range → Stored r' range
  Stored-Grows r r' range grows (logs, answered, on_file) = (
    logs,
    answered,
    All-map (λ (log : Log). 1 ≤ times (id_of out cfg log) r.sink.lines)
        (λ (log : Log). 1 ≤ times (id_of out cfg log) r'.sink.lines) logs
        (λ log h. omega (arith, h, grows (id_of out cfg log))) on_file,
  )

  pub collect_records-sink :
      (chain_id : ℕ) (now : Text) (logs : List Log) (records : List LogRecord) (r : Runner)
      → (collect_records out cfg chain_id now logs records r).1.sink ≡ r.sink
  unfolding collect_records
  collect_records-sink chain_id now [] records r = refl
  collect_records-sink chain_id now (log ∷ logs) records r =
      let (known, seen) = is_duplicate out cfg log r.seen in
      let (answer, client) = block_timestamp_with_retry out cfg log.block_number r.client in
      elim (Bool-cases known) [
        | inl e ↦ rw e (collect_records-sink chain_id now logs records r)
        | inr e ↦ elim (Result-cases answer) [
          | inl (_, f) ↦ rw (e, f) refl
          | inr (ts, f) ↦
              rw (e, f)
                (collect_records-sink chain_id now logs
                  (records ++ build_log_record out.eth chain_id log ts now ∷ [])
                  (record r { seen = seen; client = client }))
        ]
      ]

  -- Every known identity is on file or among the records that are collected.
  abbrev pub Pending : Runner → List LogRecord → Type 0
  Pending r records =
      (k : Text) (u : Unit {0})
      → Dict.lookup k r.seen ≡ some u
      → 1 ≤ times k r.sink.lines + times k records

  abbrev pub Waiting : Runner → List LogRecord → Log → Type 0
  Waiting r records log =
      1 ≤ times (id_of out cfg log) r.sink.lines + times (id_of out cfg log) records

  Pending-insert :
      (r : Runner) (client : Client) (records : List LogRecord) (log : Log) (rec : LogRecord)
      → Pending r records
      → record_id rec ≡ id_of out cfg log
      → Dict.lookup (id_of out cfg log) r.seen ≡ none
      → Pending
          (record r { seen = (is_duplicate out cfg log r.seen).1; client = client })
          (records ++ rec ∷ [])
  unfolding is_duplicate
  Pending-insert r client records log rec h same absent k u e =
      let j = id_of out cfg log in
      elim (Bool-cases (j == k)) [
        | inl f ↦ ground (arith, times-append k records (rec ∷ []), same, f)
        | inr f ↦
            let old : Dict.lookup k r.seen ≡ some u =
              rw (Dict.lookup-insert j k tt r.seen, f) at (rw (absent, is_duplicate) at e) in
            omega (arith, h k u old, times-append k records (rec ∷ []))
      ]

  -- What `collect_records` returns holds every log that was not known before.
  pub collect_records-Waiting :
      (chain_id : ℕ) (now : Text) (logs : List Log) (records : List LogRecord) (r : Runner)
      (all : List LogRecord)
      → Pending r records
      → (collect_records out cfg chain_id now logs records r).0 ≡ ok all
      → Pending (collect_records out cfg chain_id now logs records r).1 all
        × ((k : Text) → times k records ≤ times k all)
        × All (Waiting r all) logs
  unfolding collect_records
  collect_records-Waiting chain_id now [] records r all h e =
      let same : records ≡ all = ok_inj e in
      (subst (Pending r) same h, λ k. rw same (omega arith), tt)
  collect_records-Waiting chain_id now (log ∷ logs) records r all h e =
      let j = id_of out cfg log in
      elim (Option-cases (Dict.lookup j r.seen)) [
        | inr (u, f) ↦
            let known = is_duplicate-known out cfg log r.seen u f in
            let (pending, more, waiting) =
              collect_records-Waiting chain_id now logs records r all h (rw known at e) in
            rw known (pending, more, (omega (arith, h j u f, more j), waiting))
        | inl f ↦
            let (answer, client) = block_timestamp_with_retry out cfg log.block_number r.client in
            let r' = record r { seen = (is_duplicate out cfg log r.seen).1; client = client } in
            let new = (is_duplicate-new out cfg j log r.seen f).0 in
            elim (Result-cases answer) [
              | inl (_, g) ↦ absurd (cc (rw (new, g) at e))
              | inr (ts, g) ↦
                  let rec = build_log_record out.eth chain_id log ts now in
                  let same : record_id rec ≡ j = record_id-build out.eth chain_id log ts now in
                  let (pending, more, waiting) =
                    collect_records-Waiting chain_id now logs (records ++ rec ∷ []) r' all
                      (Pending-insert r client records log rec h same f) (rw (new, g) at e) in
                  let placed : times j (records ++ rec ∷ []) ≡ times j records + 1 =
                    ground (arith, times-append j records (rec ∷ []), same, beq_refl j) in
                  rw (new, g)
                    (
                      pending,
                      λ k. omega (arith, more k, times-append k records (rec ∷ [])),
                      (omega (arith, more j, placed), waiting),
                    )
            ]
      ]

  put_log_batch-ok :
      (records : List LogRecord) (s : Sink)
      → (put_log_batch out.faults records s).0 ≡ ok tt
      → (put_log_batch out.faults records s).1.lines ≡ s.lines ++ records
  unfolding put_log_batch
  put_log_batch-ok [] s e = sym (append-nil s.lines)
  put_log_batch-ok (x ∷ records) s e = ground arith

  put_log_batch-Grows :
      (k : Text) (records : List LogRecord) (s : Sink)
      → times k s.lines ≤ times k (put_log_batch out.faults records s).1.lines
  unfolding put_log_batch
  put_log_batch-Grows k [] s = omega arith
  put_log_batch-Grows k (x ∷ records) s = ground (
    arith,
    times-append k s.lines (x ∷ records),
    times-append k s.lines (take (out.faults.kept s.clock) (x ∷ records)),
  )

  pub store_range-Grows :
      (last : ℕ) (records : List LogRecord) (r : Runner)
      → Grows r (store_range out cfg last records r).1
  unfolding store_range
  store_range-Grows last records r k = ground (arith, put_log_batch-Grows k records r.sink)

  pub store_range-ok :
      (last : ℕ) (records : List LogRecord) (r : Runner)
      → (store_range out cfg last records r).0 ≡ ok tt
      → ((store_range out cfg last records r).1.sink.lines ≡ r.sink.lines ++ records)
        × ((store_range out cfg last records r).1.seen ≡ r.seen)
  unfolding store_range
  store_range-ok last records r e =
      elim (Result-cases (put_log_batch out.faults records r.sink).0) [
        | inl (_, f) ↦ absurd (cc (rw (store_range, f) at e))
        | inr (_, f) ↦ rw (store_range, f) (put_log_batch-ok records r.sink f, refl)
      ]

  pub store_range-Stored :
      (k : Text) (last : ℕ) (records : List LogRecord) (r : Runner)
      → (store_range out cfg last records r).0 ≡ ok tt
      → times k (store_range out cfg last records r).1.sink.lines
        ≡ times k r.sink.lines + times k records
  store_range-Stored k last records r e =
      ap (times k) (store_range-ok last records r e).0 ∙ times-append k r.sink.lines records
