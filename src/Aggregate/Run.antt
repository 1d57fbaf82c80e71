-- ===== src/Aggregate/Run.antt =====
-- `Run` of internal/aggregate/aggregator.go: the loop over the lines of the input, the batches for
-- the database and the saved progress.
mod Frame
pub mod Windows
pub mod Current
pub mod Progress
pub mod Latest
pub mod Tests
use liquidity_scope.Prelude.{
  ℕ, zero, suc, ◌+◌, ◌-◌, ◌*◌, ◌/◌, ◌%◌, ◌^◌, ◌≤◌, ◌<◌, ◌≡◌, refl, sym, ap, ◌∙◌, subst, ◌≢◌, ◌↔◌,
  ◌⊎◌, inl, inr, Bool, true, false, not, ◌&&◌, ◌||◌, Option, none, some, List, [], ◌∷◌, ◌++◌, map,
  append-nil, append_assoc, arith, ltb, leb, ◌==◌, Eq, nat_eq, list_eq, pair_eq, beq_refl,
  if◌then◌else◌, Result, ok, err, is_ok, Bool-cases, Option-cases, length, is_empty, All, replicate,
  ne→beq_false, le→leb, lt→leb_false, le→ltb_false, max, and_then,
}
use liquidity_scope.Prelude.Dict
use liquidity_scope.Prelude.Dict.{Dict}
use liquidity_scope.Errors.{Error, zero_window}
use liquidity_scope.Text.{Text, trim_space}
use liquidity_scope.Model.{Pool, PoolWindowMetrics, TypedEventRecord}
use liquidity_scope.Chain.{Client}
use liquidity_scope.Storage.Postgres
use liquidity_scope.Aggregate.Window.{window_start, window_end}
use liquidity_scope.Aggregate.Accumulator.{Accumulator, new_accumulator, add_event}
use liquidity_scope.Aggregate.State
use liquidity_scope.Aggregate.State.{Durable, StateStore, no_store}
use liquidity_scope.Aggregate.Session.{Config, Env, Session, new_session, batch_limit, pool_key}
use liquidity_scope.Aggregate.Flush.{flush_accumulator}

abbrev pub values : Dict Text Accumulator → List Accumulator
values [] = []
values ((k, a) ∷ m) = a ∷ values m

abbrev min_loop : ℕ → List Accumulator → ℕ
min_loop low [] = low
min_loop low (a ∷ accs) =
    min_loop (if low == 0 || ltb a.window_start low then a.window_start else low) accs

-- `minOpenWindowStart`, on the accumulators in the order of the range
unfoldable pub min_open_window_start : List Accumulator → ℕ
min_open_window_start = min_loop 0

-- The timestamp that `saveState` stores while windows are open.
unfoldable pub safe_timestamp : ℕ → List Accumulator → ℕ
unfolding min_open_window_start
safe_timestamp recompute_from accs =
    let safe_ts = min_open_window_start accs - 1 in if safe_ts == 0 then recompute_from else safe_ts

abbrev append_some {ℓ} : {A : Type ℓ} → List A → Option A → List A
append_some xs none = xs
append_some xs (some x) = xs ++ x ∷ []

abbrev count_some {ℓ} : {A : Type ℓ} → ℕ → Option A → ℕ
count_some n none = n
count_some n (some x) = n + 1

module _ (env : Env) (cfg : Config) where
  with_durable : (Result Error Unit × Durable) → Session → Result Error Unit × Session
  with_durable (r, w) s = (r, record s { durable = w })

  save_to_store : ℕ → Session → Result Error Unit × Session
  unfolding with_durable
  save_to_store ts s =
      with_durable (State.save env.os env.faults env.codec cfg.state_store ts s.durable) s

  -- `saveState`
  unfoldable pub save_state : ℕ → Session → Result Error Unit × Session
  unfolding save_to_store
  save_state recompute_from s =
      let accs = values s.accumulators in
      if is_empty accs
      then save_to_store recompute_from s
      else save_to_store (safe_timestamp recompute_from (env.range_order accs)) s

  upsert_pools : Session → Result Error Unit × Session
  upsert_pools s =
      let (r, store) = Postgres.upsert_pools env.faults s.pools s.durable.store in
      (r, record s { durable = record s.durable { store = store } })

  upsert_metrics : Session → Result Error Unit × Session
  upsert_metrics s =
      let (r, store) = Postgres.upsert_window_metrics env.faults s.batch s.durable.store in
      (r, record s { durable = record s.durable { store = store } })

  -- `flushBatches`
  unfoldable pub flush_batches : Session → Result Error Unit × Session
  unfolding upsert_pools upsert_metrics
  flush_batches s = and_then (upsert_pools s).0 (upsert_pools s).1 λ _ s'. upsert_metrics s'

  -- What `Run` does with the two results of `flushAccumulator`.
  unfoldable pub close_window : Accumulator → Session → Session
  close_window acc s =
      let ((metrics, pool), s') = flush_accumulator env cfg.window_seconds acc s in
      record s' {
        batch = append_some s'.batch metrics;
        pools = append_some s'.pools pool;
        decoded = count_some s'.decoded metrics;
      }

  open_window : TypedEventRecord → ℕ → Session → Session
  open_window r start s = record s {
    accumulators =
        Dict.insert (pool_key r.address)
          (new_accumulator r start (window_end start cfg.window_seconds)) s.accumulators;
  }

  -- The accumulator that the event belongs to is there: a new pool or a new window of its pool
  -- opens one, and the window that was open is closed.
  unfoldable pub ensure_window : TypedEventRecord → Session → Session
  unfolding open_window
  ensure_window r s =
      let start = window_start r.timestamp cfg.window_seconds in
      elim (Dict.lookup (pool_key r.address) s.accumulators) [
        | none ↦ open_window r start s
        | some acc ↦
            if acc.window_start == start then s else open_window r start (close_window acc s)
      ]

  -- `acc.AddEvent(record)` on the accumulator of the event's pool
  unfoldable pub add_to_window : TypedEventRecord → Session → Result Error Unit × Session
  add_to_window r s = elim (Dict.lookup (pool_key r.address) s.accumulators) [
    | none ↦ (ok tt, s)
    | some acc ↦
        let (result, acc') = add_event env.unmarshal_swap r acc in
        (result, record s { accumulators = Dict.insert (pool_key r.address) acc' s.accumulators })
  ]

  -- A full batch is written, and then the progress.
  unfoldable pub write_if_full : Session → Result Error Unit × Session
  write_if_full s =
      if leb (batch_limit cfg.batch_size) (length s.batch)
      then (and_then (flush_batches s).0 (flush_batches s).1
          λ _ s'. save_state cfg.recompute_from (record s' { batch = []; pools = [] }))
      else (ok tt, s)

  -- `AddEvent` and what follows it in the body of the loop.
  after_add : TypedEventRecord → Result Error Unit → Session → Result Error Unit × Session
  after_add r (err e) s = (ok tt, record s { failed = s.failed + 1 })
  after_add r (ok _) s = write_if_full (record s { max_ts = max s.max_ts r.timestamp })

  -- The body of the loop for a line that is an event.
  unfoldable pub handle_record : ℕ → TypedEventRecord → Session → Result Error Unit × Session
  unfolding after_add
  handle_record start_ts r s =
      if leb r.timestamp start_ts
      then (ok tt, record s { skipped = s.skipped + 1 })
      else (let (result, s') = add_to_window r (ensure_window r s) in after_add r result s')

  -- The body of the loop for one line.
  unfoldable pub handle_line : ℕ → Text → Session → Result Error Unit × Session
  handle_line start_ts line s =
      let content = trim_space line in
      let s' = record s { total = s.total + 1 } in
      if is_empty content then (ok tt, s) else (elim (env.unmarshal_event content) [
        | none ↦ (ok tt, record s' { failed = s'.failed + 1 })
        | some r ↦ handle_record start_ts r s'
      ])

  unfoldable pub handle_lines : ℕ → List Text → Session → Result Error Unit × Session
  handle_lines start_ts [] s = (ok tt, s)
  handle_lines start_ts (line ∷ lines) s =
      and_then (handle_line start_ts line s).0 (handle_line start_ts line s).1
        λ _ s'. handle_lines start_ts lines s'

  unfoldable pub close_windows : List Accumulator → Session → Session
  close_windows [] s = s
  close_windows (acc ∷ accs) s = close_windows accs (close_window acc s)

  -- What follows the loop: the open windows, the last batch, and the greatest timestamp as progress.
  unfoldable pub finish : Session → Result Error Unit × Session
  finish s =
      let closed = close_windows (env.range_order (values s.accumulators)) s in
      let s' = record closed { accumulators = [] } in
      and_then (flush_batches s').0 (flush_batches s').1 λ _ s''. save_state s''.max_ts s''

  -- `loadStartTimestamp`
  unfoldable pub load_start_timestamp : Durable → Result Error ℕ × Durable
  load_start_timestamp w =
      if ltb 0 cfg.recompute_from
      then (ok (cfg.recompute_from - 1), w)
      else (let (r, w') = State.load env.os env.faults env.codec cfg.state_store w in
          elim r [ err e ↦ (err e, w') | ok none ↦ (ok 0, w') | ok (some last) ↦ (ok last, w') ])

  -- The loop over the lines of the opened file, the scanner's error, and the end.
  process : ℕ → List Text → Option Error → Session → Result Error Unit × Session
  process start_ts lines scan_error s =
      and_then (handle_lines start_ts lines s).0 (handle_lines start_ts lines s).1
        λ _ s'. elim scan_error [ some e ↦ (err e, s') | none ↦ finish s' ]

  -- `Run`. The input is the error of `os.Open`, or the file's lines and the scanner's error.
  unfoldable pub run :
      Result Error (List Text × Option Error) → Client → Durable → Result Error Unit × Durable
  unfolding process
  run input client w =
      if cfg.window_seconds == 0
      then (err zero_window, w)
      else (let (r, w') = load_start_timestamp w in
          and_then r w' λ start_ts w1. elim input [
            | err e ↦ (err e, w1)
            | ok (lines, scan_error) ↦
                let (result, s) =
                  process start_ts lines scan_error (new_session client w1 start_ts) in
                (result, s.durable)
          ])
