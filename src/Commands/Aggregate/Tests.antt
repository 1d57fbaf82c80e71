-- ===== src/Commands/Aggregate/Tests.antt =====
-- A configuration of the aggregator that passes the checks.
use liquidity_scope.Prelude.{
  ◌^◌, ◌<◌, refl, ◌≢◌, true, false, none, some, [], nat_eq, list_eq, pair_eq,
}
use liquidity_scope.Prelude.Int.{pos}
use liquidity_scope.Chain.{new_client}
use liquidity_scope.Text.{codes, trim_space}
use liquidity_scope.Text.Decimal.{format_nat, parse_uint}
use liquidity_scope.Config.{parse_timestamp, is_numeric}
use liquidity_scope.Config.Load.{Settings, other, AggregateConfig}
use liquidity_scope.Aggregate.State.{db_store, no_store}
use liquidity_scope.Commands.Services.{Services, new_logger, connect}
use liquidity_scope.Commands.Aggregate.{
  ◌≢◌, false, some, ◌^◌, true, none, [], ◌<◌, aggregator_config, window_seconds_of, new_store,
}
use liquidity_scope.Commands.Aggregate.Fits.{aggregator_config-fits}

abbrev settings : Settings
settings = record {
  is_set = λ _. true;
  get = λ _. other;
  get_string = λ key. key;
  get_uint64 = λ _. 0;
  get_int = λ _. pos 0;
  get_bool = λ _. false;
  get_duration = λ _. pos 0;
}

abbrev services : Services
services = record {
  viper = record {
    bind_flags = none;
    read_path = λ _. none;
    read_default = none;
    settings = λ _ _. settings;
  };
  parse_level = λ _. none;
  build_logger = none;
  dial = λ _. none;
  connect_pool = λ _. none;
  parse_duration = λ _. some (pos 5);
  whole_seconds = λ _. 300;
  parse_time = λ _. none;
}

abbrev sample_config : AggregateConfig
sample_config = record {
  rpc_url = codes "rpc";
  input = codes "in";
  window = codes "5m";
  pg_dsn = codes "dsn";
  batch_size = pos 0;
  state_file = [];
  recompute_from = codes "17";
  log_level = codes "info";
}

aggregator_config-fits_example :
    (0 < 300) × (17 < 2 ^ 64) × (db_store (codes "aggregator:300") ≢ no_store)
unfolding new_logger connect aggregator_config window_seconds_of new_store parse_timestamp
    parse_uint is_numeric trim_space format_nat
aggregator_config-fits_example =
    aggregator_config-fits services sample_config
      (record {
        window_seconds = 300;
        batch_size = pos 0;
        recompute_from = 17;
        state_store = db_store (codes "aggregator:300");
      })
      new_client refl
