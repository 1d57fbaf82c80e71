-- ===== src/Indexer/Runner/Written.antt =====
-- That the ranges which `Runner` (internal/indexer/runner.go) got through are in the file.
use liquidity_scope.Prelude.{
  ℕ, ◌+◌, ◌≤◌, ◌≡◌, refl, sym, ap, ◌∙◌, subst, inl, inr, true, Option, some, List, [], ◌∷◌, ◌++◌,
  arith, nat_eq, list_eq, pair_eq, ok, is_ok, Bool-cases, is_empty, All, All-map, Result-cases,
}
use liquidity_scope.Prelude.Dict
use liquidity_scope.Text.{Text}
use liquidity_scope.Model.{LogRecord}
use liquidity_scope.Chain.{Client, Log, filter_logs}
use liquidity_scope.Storage.Files.{Entry}
use liquidity_scope.Storage.Jsonl.{Sink}
use liquidity_scope.Indexer.Range.{BlockRange}
use liquidity_scope.Indexer.Retry.Invariant.{with_retry_keeps}
use liquidity_scope.Indexer.Runner.{
  Outside, RunConfig, Runner, id_of, filter_logs_with_retry, collect_records, store_range,
  process_range, process_ranges,
}
use liquidity_scope.Indexer.Runner.Count.{times}
use liquidity_scope.Indexer.Runner.Stored.{
  Grows, KnownOnFile, Answered, Stored, Stored-Grows, Pending, Waiting, collect_records-sink,
  collect_records-Waiting, store_range-Grows, store_range-Stored, store_range-ok,
}
use liquidity_scope.Indexer.Runner.Progress.{Saved, Reached, checkpoint_entry, process_range-Steps}

module _ (out : Outside) (cfg : RunConfig) where
  filter_logs-Answered :
      (range : BlockRange) (c : Client) (logs : List Log)
      → (filter_logs_with_retry out cfg range.from_block range.to_block c).0 ≡ ok logs
      → Answered out cfg range logs
  unfolding filter_logs_with_retry filter_logs
  filter_logs-Answered range c logs e =
      let ask = filter_logs out.node range.from_block range.to_block cfg.addresses cfg.topic0 in
      (with_retry_keeps out.wait ask (λ _. Unit) (Answered out cfg range) (λ s h. tt)
          (λ s a h f. (s.clock, f)) (λ d s h. tt) cfg.max_retries cfg.retry_backoff c tt).1
        logs e

  process_range-Grows :
      (chain_id : ℕ) (range : BlockRange) (r : Runner)
      → Grows r (process_range out cfg chain_id range r).1
  unfolding process_range
  process_range-Grows chain_id range r k = elim (Bool-cases (out.is_cancelled r.client.clock)) [
    | inl stop ↦ rw stop (omega arith)
    | inr go ↦
        let (answer, client) =
          filter_logs_with_retry out cfg range.from_block range.to_block r.client in
        let r' = record r { client = client } in
        elim (Result-cases answer) [
          | inl (e, f) ↦ rw (go, f) (omega arith)
          | inr (logs, f) ↦
              let now = out.ingested_at client.clock in
              let (collected, r'') = collect_records out cfg chain_id now logs [] r' in
              let same = collect_records-sink out cfg chain_id now logs [] r' in
              let before : times k r''.sink.lines ≡ times k r.sink.lines =
                ap {B = ℕ} (λ (s : Sink). times k s.lines) same in
              elim (Result-cases collected) [
                | inl (e, g) ↦ rw (go, f, g) (omega (arith, before))
                | inr (records, g) ↦
                    rw (go, f, g)
                      (omega
                        (arith, before, store_range-Grows out cfg range.to_block records r'' k))
              ]
        ]
  ]

  store_range-keeps :
      (range : BlockRange) (logs : List Log) (records : List LogRecord) (r r' : Runner)
      → r'.sink ≡ r.sink
      → Pending out cfg r' records
        × ((k : Text) → times k [] ≤ times k records)
        × All (Waiting out cfg r records) logs
      → Answered out cfg range logs
      → (store_range out cfg range.to_block records r').0 ≡ ok tt
      → KnownOnFile (store_range out cfg range.to_block records r').1
        × Stored out cfg (store_range out cfg range.to_block records r').1 range
  store_range-keeps range logs records r r' same (pending, _, waiting) answered e =
      let stored = store_range out cfg range.to_block records r' in
      let (_, seen) = store_range-ok out cfg range.to_block records r' e in
      let count = λ (k : Text). store_range-Stored out cfg k range.to_block records r' e in
      let before = λ (k : Text). ap {B = ℕ} (λ (s : Sink). times k s.lines) same in
      (
        λ k u x. omega (arith, count k, pending k u (ap (Dict.lookup k) (sym seen) ∙ x)),
        (
          logs,
          answered,
          All-map (Waiting out cfg r records)
              (λ (log : Log). 1 ≤ times (id_of out cfg log) stored.1.sink.lines) logs
              (λ log w. omega (arith, w, count (id_of out cfg log), before (id_of out cfg log)))
              waiting,
        ),
      )

  -- A range that a run gets through: what is known then is on file, and so is the range.
  process_range-Stored :
      (chain_id : ℕ) (range : BlockRange) (r : Runner)
      → KnownOnFile r
      → (process_range out cfg chain_id range r).0 ≡ ok tt
      → KnownOnFile (process_range out cfg chain_id range r).1
        × Stored out cfg (process_range out cfg chain_id range r).1 range
  unfolding process_range
  process_range-Stored chain_id range r h e = elim (Bool-cases (out.is_cancelled r.client.clock)) [
    | inl stop ↦ absurd (cc (rw (process_range, stop) at e))
    | inr go ↦
        let (answer, client) =
          filter_logs_with_retry out cfg range.from_block range.to_block r.client in
        let r' = record r { client = client } in
        elim (Result-cases answer) [
          | inl (_, f) ↦ absurd (cc (rw (process_range, go, f) at e))
          | inr (logs, f) ↦
              let now = out.ingested_at client.clock in
              let (collected, r'') = collect_records out cfg chain_id now logs [] r' in
              elim (Result-cases collected) [
                | inl (_, g) ↦ absurd (cc (rw (process_range, go, f, g) at e))
                | inr (records, g) ↦
                    let before : (k : Text) (u : Unit {0})
                        → Dict.lookup k r'.seen ≡ some u
                        → 1 ≤ times k r'.sink.lines + 0 =
                      λ k u x. omega (arith, h k u x) in
                    rw (go, f, g)
                      (store_range-keeps range logs records r' r''
                        (collect_records-sink out cfg chain_id now logs [] r')
                        (collect_records-Waiting out cfg chain_id now logs [] r' records before g)
                        (filter_logs-Answered range r.client logs f)
                        (rw (process_range, go, f, g) at e))
              ]
        ]
  ]

  pub process_ranges-Grows :
      (chain_id : ℕ) (ranges : List BlockRange) (r : Runner)
      → Grows r (process_ranges out cfg chain_id ranges r).1
  unfolding process_ranges
  process_ranges-Grows chain_id [] r k = omega arith
  process_ranges-Grows chain_id (range ∷ ranges) r k =
      let (result, r') = process_range out cfg chain_id range r in
      let step = process_range-Grows chain_id range r k in
      elim (Result-cases result) [
        | inl (_, f) ↦ rw f step
        | inr (_, f) ↦ rw f (omega (arith, step, process_ranges-Grows chain_id ranges r' k))
      ]

  pub process_ranges-Stored :
      (P : Option Entry → Type 0) (chain_id : ℕ) (ranges : List BlockRange) (r : Runner)
      → cfg.checkpoint.enabled ≡ true
      → KnownOnFile r
      → P (checkpoint_entry out cfg r)
      → let (result, r') = process_ranges out cfg chain_id ranges r in
        (done : List BlockRange) × (rest : List BlockRange) × (ranges ≡ done ++ rest)
        × (is_ok result ≡ is_empty rest)
        × All (Stored out cfg r') done
        × Reached out cfg P done (checkpoint_entry out cfg r')
  unfolding process_ranges
  process_ranges-Stored P chain_id [] r on h p = ([], [], refl, refl, tt, p)
  process_ranges-Stored P chain_id (range ∷ ranges) r on h p =
      let (result, r') = process_range out cfg chain_id range r in
      let step = process_range-Steps out cfg chain_id range r on in
      elim (Result-cases result) [
        | inl (e, f) ↦
            let kept : checkpoint_entry out cfg r' ≡ checkpoint_entry out cfg r = rw f at step in
            rw f ([], range ∷ ranges, refl, refl, tt, subst P (sym kept) p)
        | inr (_, f) ↦
            let saved : Saved out cfg range.to_block (checkpoint_entry out cfg r') = rw f at step in
            let (known, stored) = process_range-Stored chain_id range r h f in
            let (done, rest, parts, ends, all, reached) =
              process_ranges-Stored (Saved out cfg range.to_block) chain_id ranges r' on known
                saved in
            let r'' = (process_ranges out cfg chain_id ranges r').1 in
            let still =
              Stored-Grows out cfg r' r'' range (process_ranges-Grows chain_id ranges r') stored in
            rw f (range ∷ done, rest, ap (λ rs. range ∷ rs) parts, ends, (still, all), reached)
      ]
