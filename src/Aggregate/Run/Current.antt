-- ===== src/Aggregate/Run/Current.antt =====
-- The totals that the loop of `Run` holds for the window that a pool has open.
use liquidity_scope.Prelude.{
  ℕ, ◌%◌, ◌^◌, ◌≡◌, refl, ap, ◌∙◌, ◌≢◌, true, false, Option, none, some, List, [], ◌∷◌, ◌++◌, arith,
  ◌==◌, nat_eq, list_eq, pair_eq, ok, length, All, ne→beq_false,
}
use liquidity_scope.Prelude.Int.{pos, abs}
use liquidity_scope.Prelude.Dict
use liquidity_scope.Text.{Text}
use liquidity_scope.Model.{TypedEventRecord}
use liquidity_scope.Aggregate.Window.{window_start, window_end}
use liquidity_scope.Aggregate.Accumulator.{Accumulator, new_accumulator, add_event}
use liquidity_scope.Aggregate.Accumulator.Fields.{add_event-window, add_events-window}
use liquidity_scope.Aggregate.Accumulator.Totals.{
  add_events, swaps_of, sum_over, fee_on, add_events-totals,
}
use liquidity_scope.Aggregate.Session.{Config, Env, Session}
use liquidity_scope.Aggregate.Run.{handle_lines}
use liquidity_scope.Aggregate.Run.Windows.{
  start_of, fresh, opened, track, events_of, of_pool, lookup-handle_lines,
}

-- No window that starts at `start` is open.
abbrev pub Closed : ℕ → Option Accumulator → Type 0
Closed start none = Unit
Closed start (some acc) = acc.window_start ≢ start

module _ (env : Env) (cfg : Config) where
  -- The event falls in the window that starts at `start`.
  abbrev pub InWindow : ℕ → TypedEventRecord → Type 0
  InWindow start r = window_start r.timestamp cfg.window_seconds ≡ start

  track-append :
      (xs ys : List TypedEventRecord) (o : Option Accumulator)
      → track env cfg (xs ++ ys) o ≡ track env cfg ys (track env cfg xs o)
  track-append [] ys o = refl
  track-append (x ∷ xs) ys o =
      track-append xs ys (some (add_event env.unmarshal_swap x (opened env cfg x o)).1)

  track_same_window :
      (start : ℕ) (rs : List TypedEventRecord) (a : Accumulator)
      → All (InWindow start) rs
      → a.window_start ≡ start
      → track env cfg rs (some a) ≡ some (add_events env.unmarshal_swap rs a)
  track_same_window start [] a h e = refl
  track_same_window start (r ∷ rs) a h e =
      let a' = (add_event env.unmarshal_swap r a).1 in
      let same : (a.window_start == start_of env cfg r) ≡ true = ground (arith, h.0) in
      let kept : a'.window_start ≡ start = add_event-window env.unmarshal_swap r a ∙ e in
      rw same (track_same_window start rs a' h.1 kept)

  after_fresh :
      (start : ℕ) (r : TypedEventRecord) (rs : List TypedEventRecord)
      → All (InWindow start) (r ∷ rs)
      → track env cfg rs (some (add_event env.unmarshal_swap r (fresh env cfg r)).1)
        ≡ some (add_events env.unmarshal_swap (r ∷ rs) (fresh env cfg r))
  after_fresh start r rs h =
      track_same_window start rs (add_event env.unmarshal_swap r (fresh env cfg r)).1 h.1
        (add_event-window env.unmarshal_swap r (fresh env cfg r) ∙ (unfold new_accumulator in h.0))

  -- The first event of a window opens it afresh.
  track_new_window :
      (start : ℕ) (r : TypedEventRecord) (rs : List TypedEventRecord) (o : Option Accumulator)
      → All (InWindow start) (r ∷ rs)
      → Closed start o
      → track env cfg (r ∷ rs) o ≡ some (add_events env.unmarshal_swap (r ∷ rs) (fresh env cfg r))
  track_new_window start r rs none h closed = after_fresh start r rs h
  track_new_window start r rs (some acc) h closed =
      let differs : (acc.window_start == start_of env cfg r) ≡ false =
        ne→beq_false acc.window_start (start_of env cfg r) (λ e. closed (e ∙ h.0)) in
      rw differs (after_fresh start r rs h)

  -- The loop gets through its lines. Take the events of one pool among them, of which the last
  -- ones, `r` and `rs`, fall in one window that was not open before them. Behind the loop the
  -- pool's open window is that one; its count is the number of swaps among these events, modulo
  -- 2^64, its volumes are the sums of their absolute amounts, and its fees the sums of the fees on
  -- what was paid in, at the fee of `r`.
  pub handle_lines-totals :
      (start_ts start : ℕ) (lines : List Text) (s : Session) (k : Text)
      (earlier : List TypedEventRecord) (r : TypedEventRecord) (rs : List TypedEventRecord)
      → (handle_lines env cfg start_ts lines s).0 ≡ ok tt
      → of_pool env cfg k (events_of env cfg start_ts lines) ≡ earlier ++ r ∷ rs
      → Closed start (track env cfg earlier (Dict.lookup k s.accumulators))
      → All (InWindow start) (r ∷ rs)
      → let ps = swaps_of env.unmarshal_swap (r ∷ rs) in
        (a : Accumulator) × (Dict.lookup k (handle_lines env cfg start_ts lines s).1.accumulators
          ≡ some a)
        × (a.window_start ≡ start)
        × (a.swap_count ≡ length ps % 2 ^ 64)
        × (a.volume0 ≡ pos (sum_over (λ x y. abs x) ps))
        × (a.volume1 ≡ pos (sum_over (λ x y. abs y) ps))
        × (a.fee0 ≡ pos (sum_over (λ x y. fee_on x y r.pool_meta.fee) ps))
        × (a.fee1 ≡ pos (sum_over (λ x y. fee_on y x r.pool_meta.fee) ps))
  handle_lines-totals start_ts start lines s k earlier r rs done own closed h =
      let a = add_events env.unmarshal_swap (r ∷ rs) (fresh env cfg r) in
      let (count, v0, v1, f0, f1) =
        add_events-totals env.unmarshal_swap r (start_of env cfg r)
          (window_end (start_of env cfg r) cfg.window_seconds) (r ∷ rs) in
      let o = Dict.lookup k s.accumulators in
      (
        a,
        lookup-handle_lines env cfg start_ts lines s k done
            ∙ (ap (λ (es : List TypedEventRecord). track env cfg es o) own
                ∙ (track-append earlier (r ∷ rs) o
                    ∙ track_new_window start r rs (track env cfg earlier o) h closed)),
        add_events-window env.unmarshal_swap (r ∷ rs) (fresh env cfg r)
            ∙ (unfold new_accumulator in h.0),
        count,
        v0,
        v1,
        f0,
        f1,
      )
