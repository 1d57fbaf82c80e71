-- ===== src/Aggregate/Run/Windows.antt =====
-- What the loop of `Run` keeps for one pool, against a description that reads the events of that
-- pool alone.
use liquidity_scope.Prelude.{
  ℕ, ◌+◌, ◌≡◌, refl, ap, ◌∙◌, inl, inr, Option, none, some, List, [], ◌∷◌, arith, leb, ◌==◌, nat_eq,
  list_eq, pair_eq, beq_refl, if◌then◌else◌, Result, ok, err, Bool-cases, Option-cases, is_empty,
  and_then-eq-ok, list_beq_iff, filter,
}
use liquidity_scope.Prelude.Dict
use liquidity_scope.Prelude.Dict.{Dict, lookup-insert, lookup-insert_self}
use liquidity_scope.Errors.{Error}
use liquidity_scope.Text.{Text, trim_space}
use liquidity_scope.Model.{TypedEventRecord}
use liquidity_scope.Aggregate.Window.{window_start, window_end}
use liquidity_scope.Aggregate.Accumulator.{Accumulator, new_accumulator, add_event}
use liquidity_scope.Aggregate.Session.{Config, Env, Session, pool_key}
use liquidity_scope.Aggregate.Run.{
  max, ensure_window, open_window, add_to_window, after_add, handle_record, handle_line,
  handle_lines,
}
use liquidity_scope.Aggregate.Run.Frame.{close_window-Keeps, write_if_full-Keeps}

module _ (env : Env) (cfg : Config) where
  abbrev pub start_of : TypedEventRecord → ℕ
  start_of r = window_start r.timestamp cfg.window_seconds

  abbrev pub fresh : TypedEventRecord → Accumulator
  fresh r = new_accumulator r (start_of r) (window_end (start_of r) cfg.window_seconds)

  -- The accumulator that an event is added to, given the one that its pool has open.
  abbrev pub opened : TypedEventRecord → Option Accumulator → Accumulator
  opened r none = fresh r
  opened r (some acc) = if acc.window_start == start_of r then acc else fresh r

  -- One event of the pool itself.
  abbrev pub track_own : TypedEventRecord → Option Accumulator → Option Accumulator
  track_own r o = some (add_event env.unmarshal_swap r (opened r o)).1

  -- The open window of a pool behind a list of events of that pool.
  abbrev pub track : List TypedEventRecord → Option Accumulator → Option Accumulator
  track [] o = o
  track (r ∷ rs) o = track rs (track_own r o)

  abbrev track_one : Text → TypedEventRecord → Option Accumulator → Option Accumulator
  track_one k r o = if pool_key r.address == k then track_own r o else o

  pub lookup-ensure_window :
      (r : TypedEventRecord) (s : Session) (k : Text)
      → Dict.lookup k (ensure_window env cfg r s).accumulators ≡ (
          if pool_key r.address == k
          then some (opened r (Dict.lookup k s.accumulators))
          else Dict.lookup k s.accumulators)
  unfolding ensure_window open_window
  lookup-ensure_window r s k =
      elim (Option-cases (Dict.lookup (pool_key r.address) s.accumulators)) [
        | inl e ↦ ground (
          arith,
          lookup-insert (pool_key r.address) k (fresh r) s.accumulators,
          list_beq_iff (pool_key r.address) k,
        )
        | inr (acc, e) ↦ ground (
          arith,
          (close_window-Keeps env cfg acc s).0,
          lookup-insert (pool_key r.address) k (fresh r) s.accumulators,
          list_beq_iff (pool_key r.address) k,
        )
      ]

  windows-after_add :
      (r : TypedEventRecord) (result : Result Error Unit) (s : Session)
      → (after_add env cfg r result s).1.accumulators ≡ s.accumulators
  unfolding after_add
  windows-after_add r (err e) s = refl
  windows-after_add r (ok _) s =
      (write_if_full-Keeps env cfg (record s { max_ts = max s.max_ts r.timestamp })).0

  lookup-add_to_window :
      (r : TypedEventRecord) (s : Session) (acc : Accumulator) (k : Text)
      → Dict.lookup (pool_key r.address) s.accumulators ≡ some acc
      → Dict.lookup k (add_to_window env cfg r s).1.accumulators ≡ (
          if pool_key r.address == k
          then some (add_event env.unmarshal_swap r acc).1
          else Dict.lookup k s.accumulators)
  unfolding add_to_window
  lookup-add_to_window r s acc k h = ground (
    arith,
    lookup-insert (pool_key r.address) k (add_event env.unmarshal_swap r acc).1 s.accumulators,
  )

  -- One event that is not skipped moves on the window of its own pool and of no other.
  lookup-handle_record :
      (start_ts : ℕ) (r : TypedEventRecord) (s : Session) (k : Text)
      → Dict.lookup k (handle_record env cfg start_ts r s).1.accumulators ≡ (
          if leb r.timestamp start_ts
          then Dict.lookup k s.accumulators
          else track_one k r (Dict.lookup k s.accumulators))
  unfolding handle_record
  lookup-handle_record start_ts r s k = elim (Bool-cases (leb r.timestamp start_ts)) [
    | inl e ↦ rw e
    | inr e ↦
        let s1 = ensure_window env cfg r s in
        let acc = opened r (Dict.lookup (pool_key r.address) s.accumulators) in
        ground (
          arith,
          lookup-ensure_window r s (pool_key r.address),
          lookup-ensure_window r s k,
          beq_refl (pool_key r.address),
          list_beq_iff (pool_key r.address) k,
          lookup-add_to_window r s1 acc k,
          windows-after_add r (add_to_window env cfg r s1).0 (add_to_window env cfg r s1).1,
        )
  ]

  -- The events that the loop does not skip, read from the lines.
  abbrev pub kept : ℕ → Option TypedEventRecord → List TypedEventRecord → List TypedEventRecord
  kept start_ts none rs = rs
  kept start_ts (some r) rs = if leb r.timestamp start_ts then rs else r ∷ rs

  abbrev pub event_of : Text → Option TypedEventRecord
  event_of line = if is_empty (trim_space line) then none else env.unmarshal_event (trim_space line)

  abbrev pub events_of : ℕ → List Text → List TypedEventRecord
  events_of start_ts [] = []
  events_of start_ts (line ∷ lines) = kept start_ts (event_of line) (events_of start_ts lines)

  -- The events of the pool with this key.
  abbrev pub of_pool : Text → List TypedEventRecord → List TypedEventRecord
  of_pool k = filter (λ r. pool_key r.address == k)

  track-kept :
      (start_ts : ℕ) (r : TypedEventRecord) (rs : List TypedEventRecord) (k : Text)
      (o : Option Accumulator)
      → track (of_pool k rs) (if leb r.timestamp start_ts then o else track_one k r o)
        ≡ track (of_pool k (kept start_ts (some r) rs)) o
  track-kept start_ts r rs k o = elim (Bool-cases (leb r.timestamp start_ts)) [
    | inl e ↦ rw e
    | inr e ↦ elim (Bool-cases (pool_key r.address == k)) [
      | inl same ↦ rw e (ground (arith, same))
      | inr other ↦ rw e (ground (arith, other))
    ]
  ]

  lookup-handle_line :
      (start_ts : ℕ) (line : Text) (s : Session) (k : Text) (rs : List TypedEventRecord)
      → track (of_pool k rs) (Dict.lookup k (handle_line env cfg start_ts line s).1.accumulators)
        ≡ track (of_pool k (kept start_ts (event_of line) rs)) (Dict.lookup k s.accumulators)
  unfolding handle_line
  lookup-handle_line start_ts line s k rs = elim (Bool-cases (is_empty (trim_space line))) [
    | inl blank ↦ rw blank
    | inr full ↦ elim (Option-cases (env.unmarshal_event (trim_space line))) [
      | inl e ↦ rw (full, e)
      | inr (r, e) ↦
          let s1 = record s { total = s.total + 1 } in
          rw (full, e)
            (ap (track (of_pool k rs)) (lookup-handle_record start_ts r s1 k)
              ∙ track-kept start_ts r rs k (Dict.lookup k s.accumulators))
    ]
  ]

  -- When the loop gets through its lines, the open window of each pool is the one that the events
  -- of that pool alone give, read in their order: no event of another pool, no line that is blank
  -- or no event, no closing of a window, no batch written and no progress saved changes it.
  pub lookup-handle_lines :
      (start_ts : ℕ) (lines : List Text) (s : Session) (k : Text)
      → (handle_lines env cfg start_ts lines s).0 ≡ ok tt
      → Dict.lookup k (handle_lines env cfg start_ts lines s).1.accumulators
        ≡ track (of_pool k (events_of start_ts lines)) (Dict.lookup k s.accumulators)
  unfolding handle_lines
  lookup-handle_lines start_ts [] s k h = refl
  lookup-handle_lines start_ts (line ∷ lines) s k h =
      let (r, s1) = handle_line env cfg start_ts line s in
      let (_, done, e) = and_then-eq-ok r s1 (λ _ s'. handle_lines env cfg start_ts lines s') h in
      let h1 : (handle_lines env cfg start_ts lines s1).0 ≡ ok tt = rw e at h in
      rw e (
        lookup-handle_lines start_ts lines s1 k h1
        ∙ lookup-handle_line start_ts line s k (events_of start_ts lines))
