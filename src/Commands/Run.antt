-- ===== src/Commands/Run.antt =====
-- `runIndexer` of cmd/indexer/main.go.
use liquidity_scope.Prelude.{
  Option, none, some, [], nat_eq, list_eq, pair_eq, if◌then◌else◌, Result, ok, err, is_empty, ◌>>=◌,
}
use liquidity_scope.Errors.{Error, missing_rpc, missing_addresses}
use liquidity_scope.Text.{Text}
use liquidity_scope.Chain.{Client}
use liquidity_scope.Config.{to_uint64}
use liquidity_scope.Config.Load.{IndexerConfig, load}
use liquidity_scope.Storage.Jsonl.{Sink}
use liquidity_scope.Storage.Files.{Disk}
use liquidity_scope.Dex.Library.{Ethereum}
use liquidity_scope.Indexer.Parse.{parse_addresses, parse_topic0}
use liquidity_scope.Indexer.Runner
use liquidity_scope.Indexer.Runner.{RunConfig, Outside, Runner}
use liquidity_scope.Commands.Services.{Services, require, new_logger, connect}

module _ (services : Services) where
  -- The checks of the configuration, in the code's order, and the `RunConfig` made of it, with the client.
  unfoldable pub run_config : Ethereum → IndexerConfig → Result Error (RunConfig × Client)
  unfolding new_logger connect
  run_config eth cfg = do
    _ ← new_logger services cfg.log_level
    _ ← require cfg.rpc_url missing_rpc
    addresses ← parse_addresses eth cfg.addresses
    _ ← if is_empty addresses then err missing_addresses else ok tt
    topic0 ← parse_topic0 eth cfg.topic0
    client ← connect services cfg.rpc_url
    ok (
      record {
        from_block = cfg.from_block;
        to_block = cfg.to_block;
        addresses = addresses;
        topic0 = topic0;
        batch_size = cfg.batch_size;
        checkpoint = record { path = cfg.checkpoint; enabled = cfg.checkpoint_enabled };
        max_retries = cfg.max_retries;
        retry_backoff = to_uint64 cfg.retry_backoff;
      },
      client,
    )

  -- `runIndexer`. The sink is the file that `cfg.Out` names, with the lines that it already holds.
  unfoldable pub run_indexer :
      Outside → (Text → Sink) → Text → Disk → Result Error Unit × (Option Runner)
  unfolding run_config
  run_indexer out sink_at cfg_file disk = elim (load services.viper cfg_file) [
    | err e ↦ (err e, none)
    | ok cfg ↦ elim (run_config out.eth cfg) [
      | err e ↦ (err e, none)
      | ok (run_cfg, client) ↦
          let r : Runner = record {
            client = client;
            seen = [];
            sink = sink_at cfg.out;
            disk = disk;
          } in
          let (result, r') = Runner.run out run_cfg r in (result, some r')
    ]
  ]
