-- ===== src/Commands/Aggregate/Fits.antt =====
-- The configuration that the command hands to the aggregator.
use liquidity_scope.Prelude.{
  ℕ, ◌^◌, ◌<◌, ◌≡◌, ap, subst, ◌≢◌, inl, inr, Option, some, arith, ◌==◌, nat_eq, list_eq, pair_eq,
  ok, Bool-cases, Option-cases, is_empty, bind-eq-ok, ok_inj,
}
use liquidity_scope.Prelude.Int.{ℤ, pos, negsuc, is_positive}
use liquidity_scope.Errors.{missing_rpc, missing_input, missing_dsn}
use liquidity_scope.Chain.{Client}
use liquidity_scope.Text.{Text, trim_space}
use liquidity_scope.Text.Decimal.{parse_uint, read_nat}
use liquidity_scope.Config.{to_uint64, parse_timestamp, is_numeric}
use liquidity_scope.Config.Load.{AggregateConfig}
use liquidity_scope.Aggregate.State.{no_store}
use liquidity_scope.Aggregate.Session.{Config}
use liquidity_scope.Commands.Services.{new_logger, connect, Services, require}
use liquidity_scope.Commands.Aggregate.{
  window_seconds_of, new_store, state_store_of, aggregator_config,
}

to_uint64_bound : (z : ℤ) → to_uint64 z < 2 ^ 64
to_uint64_bound (pos n) = omega arith
to_uint64_bound (negsuc n) = omega arith

parse_uint_bound : (s : Text) (n : ℕ) → parse_uint s ≡ some n → n < 2 ^ 64
unfolding parse_uint
parse_uint_bound s n h = elim (Option-cases (read_nat s)) [
  | inl e ↦ absurd (cc (rw (e, parse_uint) at h))
  | inr (m, e) ↦ let k = rw (e, parse_uint) at h in ground arith
]

parse_timestamp_bound :
    (parse_time : Text → Option ℤ) (input : Text) (n : ℕ)
    → parse_timestamp parse_time input ≡ ok n
    → n < 2 ^ 64
unfolding parse_timestamp
parse_timestamp_bound parse_time input n h = elim (Bool-cases (is_empty (trim_space input))) [
  | inl e ↦ omega (arith, ok_inj (rw (e, parse_timestamp) at h))
  | inr e ↦ elim (Bool-cases (is_numeric input)) [
    | inl f ↦ elim (Option-cases (parse_uint input)) [
      | inl g ↦ absurd (cc (rw (e, f, g, parse_timestamp) at h))
      | inr (m, g) ↦
          omega (arith, parse_uint_bound input m g, ok_inj (rw (e, f, g, parse_timestamp) at h))
    ]
    | inr f ↦ elim (Option-cases (parse_time input)) [
      | inl g ↦ absurd (cc (rw (e, f, g, parse_timestamp) at h))
      | inr (z, g) ↦ omega (arith, to_uint64_bound z, ok_inj (rw (e, f, g, parse_timestamp) at h))
    ]
  ]
]

window_seconds_of_positive :
    (services : Services) (window : Text) (n : ℕ) → window_seconds_of services window ≡ ok n → 0 < n
unfolding window_seconds_of
window_seconds_of_positive services window n h =
    elim (Option-cases (services.parse_duration window)) [
      | inl e ↦ absurd (cc (rw (e, window_seconds_of) at h))
      | inr (duration, e) ↦ elim (Bool-cases (is_positive duration)) [
        | inr f ↦ absurd (cc (rw (e, f, window_seconds_of) at h))
        | inl f ↦ elim (Bool-cases (services.whole_seconds duration == 0)) [
          | inl g ↦ absurd (cc (rw (e, f, g, window_seconds_of) at h))
          | inr g ↦ let k = ok_inj (rw (e, f, g, window_seconds_of) at h) in ground arith
        ]
      ]
    ]

state_store_of_some :
    (services : Services) (state_file : Text) (n : ℕ)
    → state_store_of services state_file n ≢ no_store
state_store_of_some services state_file n h = elim (Bool-cases (is_empty state_file)) [
  | inl e ↦ cc (rw e at h)
  | inr e ↦ cc (rw e at h)
]

-- A configuration that passes the checks of the command gives the aggregator windows of at least a
-- second, a start in uint64, and a store for its progress: `Run` never meets a window of no length or
-- a store that is nil.
pub aggregator_config-fits :
    (services : Services) (cfg : AggregateConfig) (c : Config) (client : Client)
    → aggregator_config services cfg ≡ ok (c, client)
    → (0 < c.window_seconds) × (c.recompute_from < 2 ^ 64) × (c.state_store ≢ no_store)
unfolding aggregator_config
aggregator_config-fits services cfg c client h =
    let (_, _, h1) = bind-eq-ok (new_logger services cfg.log_level) _ h in
    let (_, _, h2) = bind-eq-ok (require cfg.rpc_url missing_rpc) _ h1 in
    let (_, _, h3) = bind-eq-ok (require cfg.input missing_input) _ h2 in
    let (_, _, h4) = bind-eq-ok (require cfg.pg_dsn missing_dsn) _ h3 in
    let (n, window, h5) = bind-eq-ok (window_seconds_of services cfg.window) _ h4 in
    let (from_ts, start, h6) =
      bind-eq-ok (parse_timestamp services.parse_time cfg.recompute_from) _ h5 in
    let (_, _, h7) = bind-eq-ok (connect services cfg.rpc_url) _ h6 in
    let (_, _, h8) = bind-eq-ok (new_store services cfg.pg_dsn) _ h7 in
    let positive = window_seconds_of_positive services cfg.window n window in
    let bound = parse_timestamp_bound services.parse_time cfg.recompute_from from_ts start in
    subst
      (λ (c : Config).
        (0 < c.window_seconds) × (c.recompute_from < 2 ^ 64) × (c.state_store ≢ no_store))
      (ap (λ (p : Config × Client). p.0) (ok_inj h8))
      (positive, bound, state_store_of_some services cfg.state_file n)
