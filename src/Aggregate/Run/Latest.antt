-- ===== src/Aggregate/Run/Latest.antt =====
-- The progress that a whole `Run` leaves, against the events of its input.
use liquidity_scope.Prelude.{
  ℕ, ◌+◌, ◌≤◌, ◌≡◌, refl, ap, ◌∙◌, ◌⊎◌, inl, inr, Bool, true, false, not, ◌&&◌, Option, none, some,
  List, [], ◌∷◌, arith, leb, ◌==◌, nat_eq, list_eq, pair_eq, beq_refl, if◌then◌else◌, Result, ok,
  err, is_ok, Bool-cases, Option-cases, is_empty, All, Result-cases, max, and_then-eq-ok,
}
use liquidity_scope.Prelude.Dict
use liquidity_scope.Errors.{Error}
use liquidity_scope.Text.{Text, codes, to_lower, trim_space}
use liquidity_scope.Model.{TypedEventRecord}
use liquidity_scope.Chain.{Client}
use liquidity_scope.Aggregate.Accumulator.{Accumulator, add_event}
use liquidity_scope.Aggregate.Accumulator.Totals.{swap_of}
use liquidity_scope.Aggregate.Accumulator.Fields.{add_event-fails_iff}
use liquidity_scope.Aggregate.State.{Durable, db_store}
use liquidity_scope.Aggregate.Session.{Config, Env, Session, new_session, pool_key}
use liquidity_scope.Aggregate.Run.{
  ensure_window, open_window, add_to_window, after_add, handle_record, handle_line, handle_lines,
  finish, process, load_start_timestamp, run,
}
use liquidity_scope.Aggregate.Run.Frame.{close_window-Keeps, write_if_full-Keeps}
use liquidity_scope.Aggregate.Run.Windows.{opened, lookup-ensure_window, kept, event_of, events_of}
use liquidity_scope.Aggregate.Run.Progress.{finish-saves}

abbrev is_none {ℓ} : {A : Type ℓ} → Option A → Bool
is_none none = true
is_none (some _) = false

abbrev pub AmongTimes : ℕ → List ℕ → Type 0
AmongTimes x [] = ⊥
AmongTimes x (y ∷ ys) = (x ≡ y) ⊎ AmongTimes x ys

abbrev pub IsGreatest : ℕ → List ℕ → Type 0
IsGreatest x ys = AmongTimes x ys × All (λ (y : ℕ). y ≤ x) ys

abbrev greatest : ℕ → List ℕ → ℕ
greatest m [] = m
greatest m (x ∷ xs) = greatest (max m x) xs

greatest-IsGreatest : (m : ℕ) (xs : List ℕ) → IsGreatest (greatest m xs) (m ∷ xs)
greatest-IsGreatest m [] = (inl refl, (omega arith, tt))
greatest-IsGreatest m (x ∷ xs) =
    let (among, (top, all)) = greatest-IsGreatest (max m x) xs in
    (
      elim among [ inr k ↦ inr (inr k) | inl e ↦ greatest_one m x xs e ],
      (omega (arith, top), (omega (arith, top), all)),
    )
  where
    greatest_one :
        (m x : ℕ) (xs : List ℕ)
        → greatest (max m x) xs ≡ max m x
        → AmongTimes (greatest (max m x) xs) (m ∷ x ∷ xs)
    greatest_one m x xs e = ground arith

module _ (env : Env) (cfg : Config) where
  -- `AddEvent` refuses the event: it is named a swap, and there are no two amounts to read.
  abbrev pub refused : TypedEventRecord → Bool
  refused r = (to_lower r.event_name == codes "swap") && is_none (swap_of env.unmarshal_swap r)

  -- The timestamps of the events that are not refused.
  abbrev pub times_of : List TypedEventRecord → List ℕ
  times_of [] = []
  times_of (r ∷ rs) = let rest = times_of rs in if refused r then rest else r.timestamp ∷ rest

  add_event-refused_iff :
      (r : TypedEventRecord) (a : Accumulator)
      → is_ok (add_event env.unmarshal_swap r a).0 ≡ not (refused r)
  add_event-refused_iff r a =
      let (to, from) = add_event-fails_iff env.unmarshal_swap r a in
      elim (Bool-cases (is_ok (add_event env.unmarshal_swap r a).0)) [
        | inr e ↦ let (named, nothing) = to e in rw (e, named, nothing) refl
        | inl e ↦ elim (Bool-cases (refused r)) [
          | inr f ↦ rw (e, f) refl
          | inl f ↦ absurd (cc (e, from (refused_parts r f)))
        ]
      ]
    where
      refused_parts :
          (r : TypedEventRecord)
          → refused r ≡ true
          → ((to_lower r.event_name == codes "swap") ≡ true) × (swap_of env.unmarshal_swap r ≡ none)
      refused_parts r f = elim (Option-cases (swap_of env.unmarshal_swap r)) [
        | inl e ↦ (ground (arith, f), e)
        | inr (x, e) ↦ absurd (ground (arith, f, e))
      ]

  ensure_window-max_ts :
      (r : TypedEventRecord) (s : Session) → (ensure_window env cfg r s).max_ts ≡ s.max_ts
  unfolding ensure_window open_window
  ensure_window-max_ts r s = elim (Option-cases (Dict.lookup (pool_key r.address) s.accumulators)) [
    | inl e ↦ rw (ensure_window, e) refl
    | inr (acc, e) ↦ ground (arith, (close_window-Keeps env cfg acc s).1)
  ]

  add_to_window-max_ts :
      (r : TypedEventRecord) (s : Session) (acc : Accumulator)
      → Dict.lookup (pool_key r.address) s.accumulators ≡ some acc
      → (is_ok (add_to_window env cfg r s).0 ≡ not (refused r))
        × ((add_to_window env cfg r s).1.max_ts ≡ s.max_ts)
  unfolding add_to_window
  add_to_window-max_ts r s acc e = rw (add_to_window, e) (add_event-refused_iff r acc, refl)

  after_add-max_ts :
      (r : TypedEventRecord) (result : Result Error Unit) (s : Session)
      → (after_add env cfg r result s).1.max_ts
        ≡ (if is_ok result then max s.max_ts r.timestamp else s.max_ts)
  unfolding after_add
  after_add-max_ts r (err e) s = refl
  after_add-max_ts r (ok _) s =
      (write_if_full-Keeps env cfg (record s { max_ts = max s.max_ts r.timestamp })).1

  handle_record-max_ts :
      (start_ts : ℕ) (r : TypedEventRecord) (s : Session)
      → (handle_record env cfg start_ts r s).1.max_ts
        ≡ greatest s.max_ts (times_of (kept env cfg start_ts (some r) []))
  unfolding handle_record
  handle_record-max_ts start_ts r s = elim (Bool-cases (leb r.timestamp start_ts)) [
    | inl e ↦ rw (handle_record, e) refl
    | inr e ↦
        let s1 = ensure_window env cfg r s in
        let acc = opened env cfg r (Dict.lookup (pool_key r.address) s.accumulators) in
        let open_acc : Dict.lookup (pool_key r.address) s1.accumulators ≡ some acc =
          rw (beq_refl (pool_key r.address)) at
            (lookup-ensure_window env cfg r s (pool_key r.address)) in
        let (result, same) = add_to_window-max_ts r s1 acc open_acc in
        let (added, s2) = add_to_window env cfg r s1 in
        let behind = after_add-max_ts r added s2 in
        let before : s2.max_ts ≡ s.max_ts = same ∙ ensure_window-max_ts r s in
        elim (Bool-cases (refused r)) [
          | inl f ↦ rw (handle_record, e, f) (ground (arith, behind, result, f, before))
          | inr f ↦ rw (handle_record, e, f) (ground (arith, behind, result, f, before))
        ]
  ]

  greatest-kept :
      (m start_ts : ℕ) (o : Option TypedEventRecord) (rs : List TypedEventRecord)
      → greatest (greatest m (times_of (kept env cfg start_ts o []))) (times_of rs)
        ≡ greatest m (times_of (kept env cfg start_ts o rs))
  greatest-kept m start_ts none rs = refl
  greatest-kept m start_ts (some r) rs = elim (Bool-cases (leb r.timestamp start_ts)) [
    | inl e ↦ rw e refl
    | inr e ↦ elim (Bool-cases (refused r)) [ inl f ↦ rw (e, f) refl | inr f ↦ rw (e, f) refl ]
  ]

  handle_line-max_ts :
      (start_ts : ℕ) (line : Text) (s : Session)
      → (handle_line env cfg start_ts line s).1.max_ts
        ≡ greatest s.max_ts (times_of (kept env cfg start_ts (event_of env cfg line) []))
  unfolding handle_line
  handle_line-max_ts start_ts line s = elim (Bool-cases (is_empty (trim_space line))) [
    | inl blank ↦ rw blank refl
    | inr full ↦ elim (Option-cases (env.unmarshal_event (trim_space line))) [
      | inl e ↦ rw (full, e) refl
      | inr (r, e) ↦
          rw (full, e) (handle_record-max_ts start_ts r (record s { total = s.total + 1 }))
    ]
  ]

  handle_lines-max_ts :
      (start_ts : ℕ) (lines : List Text) (s : Session)
      → (handle_lines env cfg start_ts lines s).0 ≡ ok tt
      → (handle_lines env cfg start_ts lines s).1.max_ts
        ≡ greatest s.max_ts (times_of (events_of env cfg start_ts lines))
  unfolding handle_lines
  handle_lines-max_ts start_ts [] s h = refl
  handle_lines-max_ts start_ts (line ∷ lines) s h =
      let (r, s1) = handle_line env cfg start_ts line s in
      let (_, done, e) = and_then-eq-ok r s1 (λ _ s'. handle_lines env cfg start_ts lines s') h in
      let times = times_of (events_of env cfg start_ts lines) in
      rw e (
        handle_lines-max_ts start_ts lines s1 (rw e at h)
        ∙ ap (λ (m : ℕ). greatest m times) (handle_line-max_ts start_ts line s)
        ∙ greatest-kept s.max_ts start_ts (event_of env cfg line)
            (events_of env cfg start_ts lines))

  process-saves :
      (name : Text) (start_ts : ℕ) (lines : List Text) (scan_error : Option Error) (s : Session)
      → cfg.state_store ≡ db_store name
      → (process env cfg start_ts lines scan_error s).0 ≡ ok tt
      → Dict.lookup name (process env cfg start_ts lines scan_error s).1.durable.store.states
        ≡ some (greatest s.max_ts (times_of (events_of env cfg start_ts lines)))
  unfolding process
  process-saves name start_ts lines (some x) s db h =
      let (r, s1) = handle_lines env cfg start_ts lines s in
      let (_, done, e) = and_then-eq-ok r s1 (λ _ s'. (err x, s')) h in absurd (cc (rw e at h))
  process-saves name start_ts lines none s db h =
      let (r, s1) = handle_lines env cfg start_ts lines s in
      let (_, done, e) = and_then-eq-ok r s1 (λ _ s'. finish env cfg s') h in
      rw e (
        finish-saves env cfg name s1 db (rw e at h)
        ∙ ap {B = Option ℕ} some (handle_lines-max_ts start_ts lines s done))

  -- Take the database as the store of the progress. If a run over lines that were read, and any
  -- error of the scanner, ends without an error, then it had found a start timestamp, and the
  -- progress in the database is the greatest one among the start timestamp and the timestamps of
  -- the events on the lines that are behind the start timestamp and that `AddEvent` does not refuse:
  -- events of windows that were still open count too.
  pub run-saves :
      (name : Text) (lines : List Text) (scan_error : Option Error) (client : Client) (w : Durable)
      → cfg.state_store ≡ db_store name
      → (run env cfg (ok (lines, scan_error)) client w).0 ≡ ok tt
      → (start_ts : ℕ) × (saved : ℕ) × ((load_start_timestamp env cfg w).0 ≡ ok start_ts)
        × (Dict.lookup name (run env cfg (ok (lines, scan_error)) client w).1.store.states
            ≡ some saved)
        × IsGreatest saved (start_ts ∷ times_of (events_of env cfg start_ts lines))
  unfolding run
  run-saves name lines scan_error client w db h = elim (Bool-cases (cfg.window_seconds == 0)) [
    | inl e ↦ absurd (cc (rw (run, e) at h))
    | inr e ↦
        let (loaded, w1) = load_start_timestamp env cfg w in
        elim (Result-cases loaded) [
          | inl (x, f) ↦ absurd (cc (rw (run, e, f) at h))
          | inr (start_ts, f) ↦
              let times = times_of (events_of env cfg start_ts lines) in
              rw (run, e, f)
                (
                  start_ts,
                  greatest start_ts times,
                  refl,
                  process-saves name start_ts lines scan_error (new_session client w1 start_ts) db
                      (rw (run, e, f) at h),
                  greatest-IsGreatest start_ts times,
                )
        ]
  ]
