-- ===== src/Commands/Aggregate.antt =====
-- `runAggregate` of cmd/indexer/aggregate.go.
pub mod Fits
mod Tests
use liquidity_scope.Prelude.{
  ℕ, zero, suc, ◌+◌, ◌-◌, ◌*◌, ◌/◌, ◌%◌, ◌^◌, ◌≤◌, ◌<◌, ◌≡◌, refl, sym, ap, ◌∙◌, subst, ◌≢◌, ◌↔◌,
  ◌⊎◌, inl, inr, Bool, true, false, not, ◌&&◌, ◌||◌, Option, none, some, List, [], ◌∷◌, ◌++◌, map,
  append-nil, append_assoc, arith, ltb, leb, ◌==◌, Eq, nat_eq, list_eq, pair_eq, beq_refl,
  if◌then◌else◌, Result, ok, err, is_ok, Bool-cases, Option-cases, length, is_empty, All, replicate,
  ne→beq_false, le→leb, lt→leb_false, le→ltb_false, ◌>>=◌,
}
use liquidity_scope.Prelude.Int.{ℤ, pos, negsuc, is_positive}
use liquidity_scope.Errors.{
  Error, missing_rpc, missing_input, missing_dsn, bad_window, window_not_positive, window_too_short,
}
use liquidity_scope.Text.{Text, codes}
use liquidity_scope.Text.Decimal.{format_nat}
use liquidity_scope.Chain.{Client, new_client}
use liquidity_scope.Config.{parse_timestamp}
use liquidity_scope.Config.Load.{AggregateConfig, load_aggregate}
use liquidity_scope.Aggregate.State.{StateStore, file_store, db_store, Durable}
use liquidity_scope.Aggregate.Session.{Config, Env}
use liquidity_scope.Aggregate.Run
use liquidity_scope.Commands.Services.{new_logger, connect, Services, step, require}

module _ (services : Services) where
  -- `windowSeconds`, from the text of the window.
  unfoldable pub window_seconds_of : Text → Result Error ℕ
  window_seconds_of window = elim (services.parse_duration window) [
    | none ↦ err bad_window
    | some duration ↦
        if not (is_positive duration)
        then err window_not_positive
        else if services.whole_seconds duration == 0
        then err window_too_short
        else ok (services.whole_seconds duration)
  ]

  -- `NewStore` of internal/storage/postgres
  unfoldable pub new_store : Text → Result Error Unit
  new_store dsn = require dsn missing_dsn >>= λ _. step (services.connect_pool dsn)

  -- The state file if one is named, else the row of the database for this window.
  abbrev pub state_store_of : Text → ℕ → StateStore
  state_store_of state_file window_seconds =
      if not (is_empty state_file)
      then file_store state_file
      else db_store (codes "aggregator:" ++ format_nat window_seconds)

  -- The checks of the configuration, in the code's order, and the `Config` of the aggregator, with the client.
  unfoldable pub aggregator_config : AggregateConfig → Result Error (Config × Client)
  unfolding window_seconds_of new_store new_logger connect
  aggregator_config cfg = do
    _ ← new_logger services cfg.log_level
    _ ← require cfg.rpc_url missing_rpc
    _ ← require cfg.input missing_input
    _ ← require cfg.pg_dsn missing_dsn
    window_seconds ← window_seconds_of cfg.window
    recompute_from ← parse_timestamp services.parse_time cfg.recompute_from
    client ← connect services cfg.rpc_url
    _ ← new_store cfg.pg_dsn
    ok (
      record {
        window_seconds = window_seconds;
        batch_size = cfg.batch_size;
        recompute_from = recompute_from;
        state_store = state_store_of cfg.state_file window_seconds;
      },
      client,
    )

  -- `runAggregate`. The input is what opening and scanning the file at a path gives.
  unfoldable pub run_aggregate :
      Env
      → (Text → Result Error (List Text × Option Error))
      → Text
      → Durable
      → Result Error Unit × Durable
  unfolding aggregator_config
  run_aggregate env input_at cfg_file w = elim (load_aggregate services.viper cfg_file) [
    | err e ↦ (err e, w)
    | ok cfg ↦ elim (aggregator_config cfg) [
      | err e ↦ (err e, w)
      | ok (agg_cfg, client) ↦ Run.run env agg_cfg (input_at cfg.input) client w
    ]
  ]
