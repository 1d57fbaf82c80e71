-- ===== src/Aggregate/Run/Progress.antt =====
-- The progress that `Run` saves: where a later run takes up.
use liquidity_scope.Prelude.{
  ℕ, ◌≤◌, ◌<◌, ◌≡◌, refl, sym, ap, ◌∙◌, subst, ◌⊎◌, inl, inr, true, ◌||◌, Option, some, List, [],
  ◌∷◌, arith, ltb, ◌==◌, nat_eq, list_eq, pair_eq, if◌then◌else◌, ok, Bool-cases, is_empty,
  and_then-eq-ok,
}
use mathlib.Core.List.Perm
use liquidity_scope.Storage.Files.{Os}
use liquidity_scope.Aggregate.State.{StateCodec, Durable, StateStore, db_store}
use liquidity_scope.Aggregate.Run.Frame.{flush_batches-Keeps, close_windows-Keeps}
use liquidity_scope.Aggregate.Run.{
  finish, close_windows, flush_batches, values, min_loop, safe_timestamp, save_state, save_to_store,
}
use mathlib.Core.Logic.Or
use mathlib.Core.List.{Mem, Perm, mem-cons, not-mem-nil}
use native.Mathlib.Bridge.{le_prop}
use liquidity_scope.Prelude.Dict
use liquidity_scope.Prelude.Dict.{Dict, lookup-insert_self}
use liquidity_scope.Errors.{Error}
use liquidity_scope.Text.{Text}
use liquidity_scope.Model.{TypedEventRecord}
use liquidity_scope.Storage.Postgres
use liquidity_scope.Aggregate.Window.{window_start, window_start-IsWindow}
use liquidity_scope.Aggregate.Accumulator.{Accumulator}
use liquidity_scope.Aggregate.State
use liquidity_scope.Aggregate.Session.{Config, Env, Session}

-- Every accumulator in the list opened its window later than `bound`.
abbrev pub Later : ℕ → List Accumulator → Type 0
Later bound accs = (b : Accumulator) → Mem b accs → bound < b.window_start

Later-tail :
    (bound : ℕ) (a : Accumulator) (accs : List Accumulator)
    → Later bound (a ∷ accs)
    → Later bound accs
Later-tail bound a accs h b m = h b (mem-cons.1 (Or.inr m))

Later-head :
    (bound : ℕ) (a : Accumulator) (accs : List Accumulator)
    → Later bound (a ∷ accs)
    → bound < a.window_start
Later-head bound a accs h = h a (mem-cons.1 (Or.inl refl))

abbrev lower : ℕ → ℕ → ℕ
lower low w = if low == 0 || ltb w low then w else low

lower_bounds :
    (bound low w : ℕ)
    → bound < w
    → ((low ≡ 0) ⊎ (bound < low))
    → (bound < lower low w) × (lower low w ≤ w) × (0 < low → lower low w ≤ low)
lower_bounds bound low w h k = ground arith

min_loop-le :
    (bound low : ℕ) (accs : List Accumulator)
    → Later bound accs
    → bound < low
    → (bound < min_loop low accs) × (min_loop low accs ≤ low)
min_loop-le bound low [] h k = (k, omega arith)
min_loop-le bound low (a ∷ accs) h k =
    let (b1, b2, b3) = lower_bounds bound low a.window_start (Later-head bound a accs h) (inr k) in
    let (c1, c2) =
      min_loop-le bound (lower low a.window_start) accs (Later-tail bound a accs h) b1 in
    (c1, omega (arith, c2, b3 (omega arith)))

-- With no window at 0 the loop finds a bound of every window start.
min_loop-le_mem :
    (bound low : ℕ) (accs : List Accumulator) (a : Accumulator)
    → Later bound accs
    → ((low ≡ 0) ⊎ (bound < low))
    → Mem a accs
    → (bound < min_loop low accs) × (min_loop low accs ≤ a.window_start)
min_loop-le_mem bound low [] a h k m = absurd (not-mem-nil m)
min_loop-le_mem bound low (x ∷ accs) a h k m =
    let (b1, b2, b3) = lower_bounds bound low x.window_start (Later-head bound x accs h) k in
    let (c1, c2) =
      min_loop-le bound (lower low x.window_start) accs (Later-tail bound x accs h) b1 in
    (
      c1,
      Or.elim le_prop (mem-cons.0 m) (λ e. rw e (omega (arith, c2, b2)))
          (λ m'.
            (min_loop-le_mem bound (lower low x.window_start) accs a (Later-tail bound x accs h)
              (inr b1) m').1),
    )

-- The timestamp saved while windows are open lies before every open window, whatever the order in
-- which they are visited, provided that no window starts at 0 or 1.
safe_timestamp-lt :
    (recompute_from : ℕ) (accs : List Accumulator) (a : Accumulator)
    → Later 1 accs
    → Mem a accs
    → safe_timestamp recompute_from accs < a.window_start
unfolding safe_timestamp
safe_timestamp-lt recompute_from accs a h m =
    let (lo, hi) = min_loop-le_mem 1 0 accs a h (inl refl) m in ground arith

mem-ne-empty : (accs : List Accumulator) (a : Accumulator) → Mem a accs → is_empty accs ≡ true → ⊥
mem-ne-empty [] a m e = not-mem-nil m
mem-ne-empty (x ∷ accs) a m e = cc

mem-values :
    (k : Text) (m : Dict Text Accumulator) (a : Accumulator)
    → Dict.lookup k m ≡ some a
    → Mem a (values m)
mem-values k [] a h = cc
mem-values k ((j, b) ∷ m) a h = elim (Bool-cases (j == k)) [
  | inl e ↦ let same : a ≡ b = ground arith in mem-cons.1 (Or.inl same)
  | inr e ↦ mem-cons.1 (Or.inr (mem-values k m a (rw e at h)))
]

save-db :
    (os : Os) (faults : ℕ → Option Error) (codec : StateCodec) (name : Text) (ts : ℕ) (w : Durable)
    → (State.save os faults codec (db_store name) ts w).0 ≡ ok tt
    → Dict.lookup name (State.save os faults codec (db_store name) ts w).1.store.states ≡ some ts
unfolding State.save Postgres.save_state
save-db os faults codec name ts w h = ground (arith, lookup-insert_self name ts w.store.states)

module _ (env : Env) (cfg : Config) where
  save_to_store-db :
      (name : Text) (ts : ℕ) (s : Session)
      → cfg.state_store ≡ db_store name
      → (save_to_store env cfg ts s).0 ≡ ok tt
      → Dict.lookup name (save_to_store env cfg ts s).1.durable.store.states ≡ some ts
  unfolding save_to_store
  save_to_store-db name ts s e =
      subst
        (λ (st : StateStore).
          (State.save env.os env.faults env.codec st ts s.durable).0 ≡ ok tt
          → Dict.lookup name (State.save env.os env.faults env.codec st ts s.durable).1.store.states
            ≡ some ts)
        (sym e) (save-db env.os env.faults env.codec name ts s.durable)

  -- What `saveState` hands to the store while windows are open.
  save_state-open :
      (recompute_from : ℕ) (s : Session) (acc : Accumulator)
      → Mem acc (values s.accumulators)
      → save_state env cfg recompute_from s
        ≡ save_to_store env cfg
            (safe_timestamp recompute_from (env.range_order (values s.accumulators)))
            s
  unfolding save_state
  save_state-open recompute_from s acc m = elim (Bool-cases (is_empty (values s.accumulators))) [
    | inl e ↦ absurd (mem-ne-empty (values s.accumulators) acc m e)
    | inr e ↦ rw e
  ]

  -- Take windows of a length above 0, the database as the store of the progress, an order of
  -- visiting that is a permutation of the open windows, and no window open that starts at 0 or 1.
  -- Progress that is saved without an error then lies before every event of every open window, so
  -- that a later run that starts from it reads these events again.
  pub save_state-resumes :
      (name : Text) (recompute_from : ℕ) (s : Session) (k : Text) (acc : Accumulator)
      (r : TypedEventRecord)
      → 0 < cfg.window_seconds
      → cfg.state_store ≡ db_store name
      → ((accs : List Accumulator) → Perm (env.range_order accs) accs)
      → Later 1 (values s.accumulators)
      → Dict.lookup k s.accumulators ≡ some acc
      → window_start r.timestamp cfg.window_seconds ≡ acc.window_start
      → (save_state env cfg recompute_from s).0 ≡ ok tt
      → (ts : ℕ) × (Dict.lookup name (save_state env cfg recompute_from s).1.durable.store.states
          ≡ some ts)
        × (ts < r.timestamp)
  save_state-resumes name recompute_from s k acc r w db order later open_acc inside saved =
      let accs = values s.accumulators in
      let m = mem-values k s.accumulators acc open_acc in
      let ts = safe_timestamp recompute_from (env.range_order accs) in
      let e = save_state-open recompute_from s acc m in
      let early : ts < acc.window_start =
        safe_timestamp-lt recompute_from (env.range_order accs) acc
          (λ b mb. later b ((Perm.mem_iff (order accs)).0 mb)) ((Perm.mem_iff (order accs)).1 m) in
      let (_, starts, _) = window_start-IsWindow r.timestamp cfg.window_seconds w in
      (
        ts,
        rw e (save_to_store-db name ts s db (rw e at saved)),
        omega (arith, early, starts, inside),
      )

  saves_end :
      (name : Text) (s : Session)
      → cfg.state_store ≡ db_store name
      → s.accumulators ≡ []
      → (save_state env cfg s.max_ts s).0 ≡ ok tt
      → Dict.lookup name (save_state env cfg s.max_ts s).1.durable.store.states ≡ some s.max_ts
  unfolding save_state
  saves_end name s db closed = rw closed (save_to_store-db name s.max_ts s db)

  -- With the database as the store of the progress, an end of the run that returns no error leaves
  -- there the greatest timestamp that the session holds.
  pub finish-saves :
      (name : Text) (s : Session)
      → cfg.state_store ≡ db_store name
      → (finish env cfg s).0 ≡ ok tt
      → Dict.lookup name (finish env cfg s).1.durable.store.states ≡ some s.max_ts
  unfolding finish
  finish-saves name s db h =
      let closed = close_windows env cfg (env.range_order (values s.accumulators)) s in
      let s' = record closed { accumulators = [] } in
      let (r, s2) = flush_batches env cfg s' in
      let (_, done, e) = and_then-eq-ok r s2 (λ _ t. save_state env cfg t.max_ts t) h in
      let (none_open, same) = flush_batches-Keeps env cfg s' in
      let (_, kept) = close_windows-Keeps env cfg (env.range_order (values s.accumulators)) s in
      rw e (saves_end name s2 db none_open (rw e at h) ∙ ap {B = Option ℕ} some (same ∙ kept))
