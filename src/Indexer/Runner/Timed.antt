-- ===== src/Indexer/Runner/Timed.antt =====
-- The time of a log record is that of its block.
use liquidity_scope.Prelude.{
  ℕ, zero, suc, ◌≡◌, refl, sym, ap, ◌∙◌, subst, inl, inr, some, List, [], ◌∷◌, ◌++◌, ◌==◌, nat_eq,
  list_eq, pair_eq, Result, ok, Bool-cases, Option-cases, All, beq→eq, All-append, Result-cases,
  ok_inj,
}
use liquidity_scope.Prelude.Dict
use liquidity_scope.Chain.{Client, Log, block_timestamp, filter_logs}
use liquidity_scope.Model.{LogRecord}
use liquidity_scope.Errors.{Error}
use liquidity_scope.Text.{Text}
use liquidity_scope.Storage.Jsonl.{Sink, put_log_batch, take}
use liquidity_scope.Indexer.Range.{BlockRange}
use liquidity_scope.Indexer.Retry.Invariant.{with_retry_keeps}
use liquidity_scope.Indexer.Runner.{
  build_log_record, is_duplicate, collect_records, store_range, process_range, run,
  filter_logs_with_retry, block_timestamp_with_retry, Outside, RunConfig, Runner,
}
use liquidity_scope.Indexer.Runner.Invariant.{run_keeps}

-- A chain whose blocks have one time each; waiting leaves the cache of times alone.
pub record IsStable (out : Outside) (time_of : ℕ → ℕ) : Type 0 where
  pub header :
      (clock number ts : ℕ) → out.node.header_time clock number ≡ ok ts → ts ≡ time_of number
  pub waiting : (delay : ℕ) (c : Client) → (out.wait delay c).1.ts_cache ≡ c.ts_cache

abbrev pub HasTime : (ℕ → ℕ) → LogRecord → Type 0
HasTime time_of r = r.timestamp ≡ time_of r.block_number

-- The cache holds times of blocks only.
abbrev pub CachesTimes : (ℕ → ℕ) → Client → Type 0
CachesTimes time_of c =
    (number ts : ℕ) → Dict.lookup number c.ts_cache ≡ some ts → ts ≡ time_of number

abbrev pub Timed : (ℕ → ℕ) → Runner → Type 0
Timed time_of r = CachesTimes time_of r.client × All (HasTime time_of) r.sink.lines

module _ (out : Outside) (cfg : RunConfig) (time_of : ℕ → ℕ) (stable : IsStable out time_of) where
  CachesTimes-same :
      (c c' : Client) → c'.ts_cache ≡ c.ts_cache → CachesTimes time_of c → CachesTimes time_of c'
  CachesTimes-same c c' same h number ts e = h number ts (rw (← same) e)

  block_timestamp-CachesTimes :
      (number : ℕ) (c : Client)
      → CachesTimes time_of c
      → CachesTimes time_of (block_timestamp out.node number c).1
  unfolding block_timestamp
  block_timestamp-CachesTimes number c h other ts e =
      elim (Option-cases (Dict.lookup number c.ts_cache)) [
        | inr (known, f) ↦ h other ts (rw (f, block_timestamp) at e)
        | inl f ↦ elim (Result-cases (out.node.header_time c.clock number)) [
          | inl (x, g) ↦ h other ts (rw (f, g, block_timestamp) at e)
          | inr (t, g) ↦
              let found =
                rw (f, g, block_timestamp, Dict.lookup-insert number other t c.ts_cache) at e in
              elim (Bool-cases (number == other)) [
                | inl same ↦
                    stable.header c.clock other ts
                      (cc (g, beq→eq number other same, rw same at found))
                | inr apart ↦ h other ts (rw apart at found)
              ]
        ]
      ]

  block_timestamp-time :
      (number : ℕ) (c : Client) (ts : ℕ)
      → CachesTimes time_of c
      → (block_timestamp out.node number c).0 ≡ ok ts
      → ts ≡ time_of number
  unfolding block_timestamp
  block_timestamp-time number c ts h e = elim (Option-cases (Dict.lookup number c.ts_cache)) [
    | inr (known, f) ↦ h number ts (f ∙ ap some (ok_inj (rw (f, block_timestamp) at e)))
    | inl f ↦ elim (Result-cases (out.node.header_time c.clock number)) [
      | inl (x, g) ↦ absurd (cc (rw (f, g, block_timestamp) at e))
      | inr (t, g) ↦
          stable.header c.clock number ts (g ∙ ap ok (ok_inj (rw (f, g, block_timestamp) at e)))
    ]
  ]

  block_timestamp_with_retry-Timed :
      (number : ℕ) (c : Client)
      → CachesTimes time_of c
      → CachesTimes time_of (block_timestamp_with_retry out cfg number c).1
        × ((ts : ℕ) → (block_timestamp_with_retry out cfg number c).0 ≡ ok ts → ts ≡ time_of number)
  unfolding block_timestamp_with_retry
  block_timestamp_with_retry-Timed number c h =
      with_retry_keeps out.wait (block_timestamp out.node number) (CachesTimes time_of)
        (λ ts. ts ≡ time_of number) (block_timestamp-CachesTimes number)
        (λ c ts. block_timestamp-time number c ts)
        (λ delay c. CachesTimes-same c (out.wait delay c).1 (stable.waiting delay c))
        cfg.max_retries cfg.retry_backoff c h

  filter_logs_with_retry-CachesTimes :
      (from_block to_block : ℕ) (c : Client)
      → CachesTimes time_of c
      → CachesTimes time_of (filter_logs_with_retry out cfg from_block to_block c).1
  unfolding filter_logs_with_retry filter_logs
  filter_logs_with_retry-CachesTimes from_block to_block c h =
      (with_retry_keeps out.wait (filter_logs out.node from_block to_block cfg.addresses cfg.topic0)
        (CachesTimes time_of) (λ _. Unit) (λ c h. h) (λ c logs h e. tt)
        (λ delay c. CachesTimes-same c (out.wait delay c).1 (stable.waiting delay c))
        cfg.max_retries cfg.retry_backoff c h).0

  -- The records of a range have their blocks' times, and the sink waits for them.
  abbrev Collected : Sink → Result Error (List LogRecord) × Runner → Type 0
  Collected sink (collected, r) =
      CachesTimes time_of r.client
      × (r.sink ≡ sink)
      × ((records : List LogRecord) → collected ≡ ok records → All (HasTime time_of) records)

  collect_records-Collected :
      (chain_id : ℕ) (now : Text) (logs : List Log) (records : List LogRecord) (r : Runner)
      → CachesTimes time_of r.client
      → All (HasTime time_of) records
      → Collected r.sink (collect_records out cfg chain_id now logs records r)
  unfolding collect_records
  collect_records-Collected chain_id now [] records r h k =
      (h, refl, λ rs e. subst (All (HasTime time_of)) (ok_inj e) k)
  collect_records-Collected chain_id now (log ∷ logs) records r h k =
      let (known, seen) = is_duplicate out cfg log r.seen in
      let (answer, client) = block_timestamp_with_retry out cfg log.block_number r.client in
      let (cached, timed) = block_timestamp_with_retry-Timed log.block_number r.client h in
      elim (Bool-cases known) [
        | inl e ↦ rw e (collect_records-Collected chain_id now logs records r h k)
        | inr e ↦ elim (Result-cases answer) [
          | inl (x, f) ↦ rw (e, f) (cached, refl, λ rs g. absurd (cc g))
          | inr (ts, f) ↦
              let rec = build_log_record out.eth chain_id log ts now in
              let rec_timed : HasTime time_of rec = unfold build_log_record in timed ts f in
              rw (e, f)
                (collect_records-Collected chain_id now logs (records ++ rec ∷ [])
                  (record r { seen = seen; client = client }) cached
                  (All-append (HasTime time_of) records (rec ∷ []) k (rec_timed, tt)))
        ]
      ]

  All-take :
      (n : ℕ) (rs : List LogRecord) → All (HasTime time_of) rs → All (HasTime time_of) (take n rs)
  All-take zero rs h = tt
  All-take (suc n) [] h = tt
  All-take (suc n) (r ∷ rs) (h, k) = (h, All-take n rs k)

  put_log_batch-HasTime :
      (rs : List LogRecord) (s : Sink)
      → All (HasTime time_of) rs
      → All (HasTime time_of) s.lines
      → All (HasTime time_of) (put_log_batch out.faults rs s).1.lines
  unfolding put_log_batch
  put_log_batch-HasTime [] s h k = k
  put_log_batch-HasTime (r ∷ rs) s h k = elim (Option-cases (out.faults.fault s.clock)) [
    | inl e ↦ rw (e, put_log_batch) (All-append (HasTime time_of) s.lines (r ∷ rs) k h)
    | inr (x, e) ↦
        rw (e, put_log_batch)
          (All-append (HasTime time_of) s.lines _ k (All-take (out.faults.kept s.clock) (r ∷ rs) h))
  ]

  store_range-Timed :
      (last : ℕ) (records : List LogRecord) (r : Runner)
      → Timed time_of r
      → All (HasTime time_of) records
      → Timed time_of (store_range out cfg last records r).1
  unfolding store_range
  store_range-Timed last records r (h, k) timed =
      let stored = put_log_batch-HasTime records r.sink timed k in
      elim (Result-cases (put_log_batch out.faults records r.sink).0) [
        | inl (x, e) ↦ rw (e, store_range) (h, stored)
        | inr (_, e) ↦ rw (e, store_range) (h, stored)
      ]

  process_range-Timed :
      (chain_id : ℕ) (range : BlockRange) (r : Runner)
      → Timed time_of r
      → Timed time_of (process_range out cfg chain_id range r).1
  unfolding process_range
  process_range-Timed chain_id range r (h, k) =
      elim (Bool-cases (out.is_cancelled r.client.clock)) [
        | inl stop ↦ rw stop (h, k)
        | inr go ↦
            let (answer, client) =
              filter_logs_with_retry out cfg range.from_block range.to_block r.client in
            let r' = record r { client = client } in
            let h' =
              filter_logs_with_retry-CachesTimes range.from_block range.to_block r.client h in
            elim (Result-cases answer) [
              | inl (x, f) ↦ rw (go, f) (h', k)
              | inr (logs, f) ↦
                  let now = out.ingested_at client.clock in
                  let (collected, r'') = collect_records out cfg chain_id now logs [] r' in
                  let (cached, same, timed) =
                    collect_records-Collected chain_id now logs [] r' h' tt in
                  let kept : Timed time_of r'' =
                    (cached, subst (λ (s : Sink). All (HasTime time_of) s.lines) (sym same) k) in
                  elim (Result-cases collected) [
                    | inl (x, g) ↦ rw (go, f, g) kept
                    | inr (records, g) ↦
                        rw (go, f, g)
                          (store_range-Timed range.to_block records r'' kept (timed records g))
                  ]
            ]
      ]

  -- If each block has one time, which the node gives whenever it answers, and waiting leaves the cache
  -- alone: a run keeps it true that the cache holds times of blocks, and that every record in the file
  -- has the time of its block, whatever fails and wherever the run stops.
  pub run-Timed : (r : Runner) → Timed time_of r → Timed time_of (run out cfg r).1
  run-Timed r h =
      run_keeps out cfg (Timed time_of)
        (record {
          disk = λ r d h. h;
          client = λ r c same h. (CachesTimes-same r.client c same h.0, h.1);
          range = process_range-Timed;
        })
        r h
