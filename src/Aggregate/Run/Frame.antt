-- ===== src/Aggregate/Run/Frame.antt =====
-- The calls of the loop that leave the open windows alone.
use liquidity_scope.Prelude.{
  ℕ, ◌≡◌, refl, ◌∙◌, inl, inr, ◌||◌, List, [], ◌∷◌, arith, nat_eq, list_eq, pair_eq, Bool-cases,
  is_empty,
}
use liquidity_scope.Text.{Text}
use liquidity_scope.Aggregate.Accumulator.{Accumulator}
use liquidity_scope.Aggregate.Session.{Config, Env, Session}
use liquidity_scope.Aggregate.Tokens.{get_token_decimals}
use liquidity_scope.Aggregate.Flush.{flush_accumulator, register_pool}
use liquidity_scope.Aggregate.Run.{
  close_window, close_windows, flush_batches, save_state, write_if_full,
}

-- The open windows and the greatest timestamp are the same in both states.
abbrev pub Keeps : Session → Session → Type 0
Keeps s' s = (s'.accumulators ≡ s.accumulators) × (s'.max_ts ≡ s.max_ts)

Keeps-trans : (a b c : Session) → Keeps a b → Keeps b c → Keeps a c
Keeps-trans a b c h k = (h.0 ∙ k.0, h.1 ∙ k.1)

module _ (env : Env) where
  get_token_decimals-Keeps :
      (token : Text) (s : Session) → Keeps (get_token_decimals env token s).1 s
  unfolding get_token_decimals
  get_token_decimals-Keeps token s = ground arith

  flush_accumulator-Keeps :
      (w : ℕ) (acc : Accumulator) (s : Session) → Keeps (flush_accumulator env w acc s).1 s
  unfolding flush_accumulator
  flush_accumulator-Keeps w acc s =
      let m = acc.pool_meta in
      elim (Bool-cases (is_empty m.token0 || is_empty m.token1)) [
        | inl e ↦ rw e (refl, refl)
        | inr e ↦
            let s' = record s { pool_seen = (register_pool acc s.pool_seen).1 } in
            let s0 = (get_token_decimals env m.token0 s').1 in
            rw e (
              Keeps-trans (get_token_decimals env m.token1 s0).1 s0 s
                (get_token_decimals-Keeps m.token1 s0) (get_token_decimals-Keeps m.token0 s'))
      ]

module _ (env : Env) (cfg : Config) where
  pub close_window-Keeps : (acc : Accumulator) (s : Session) → Keeps (close_window env cfg acc s) s
  unfolding close_window
  close_window-Keeps acc s = flush_accumulator-Keeps env cfg.window_seconds acc s

  pub close_windows-Keeps :
      (accs : List Accumulator) (s : Session) → Keeps (close_windows env cfg accs s) s
  unfolding close_windows
  close_windows-Keeps [] s = (refl, refl)
  close_windows-Keeps (acc ∷ accs) s =
      Keeps-trans (close_windows env cfg accs (close_window env cfg acc s))
        (close_window env cfg acc s) s (close_windows-Keeps accs (close_window env cfg acc s))
        (close_window-Keeps acc s)

  pub flush_batches-Keeps : (s : Session) → Keeps (flush_batches env cfg s).1 s
  unfolding flush_batches
  flush_batches-Keeps s = ground arith

  save_state-Keeps : (ts : ℕ) (s : Session) → Keeps (save_state env cfg ts s).1 s
  unfolding save_state
  save_state-Keeps ts s = ground arith

  pub write_if_full-Keeps : (s : Session) → Keeps (write_if_full env cfg s).1 s
  unfolding write_if_full
  write_if_full-Keeps s = ground (
    arith,
    flush_batches-Keeps s,
    save_state-Keeps cfg.recompute_from
        (record (flush_batches env cfg s).1 { batch = []; pools = [] }),
  )
