-- ===== src/Indexer/Runner/Again.antt =====
-- A run of `Runner` (internal/indexer/runner.go) that stopped, and a later one that takes up its work.
use liquidity_scope.Prelude.{[], nat_eq, list_eq, pair_eq}
use liquidity_scope.Chain.{Client}
use liquidity_scope.Indexer.Checkpoint
use liquidity_scope.Indexer.Checkpoint.{Checkpoint}
use liquidity_scope.Indexer.Runner.{Outside, RunConfig, Runner}
use liquidity_scope.Indexer.Runner.Stored.{Stored}
use liquidity_scope.Chain

module _ (out : Outside) (cfg : RunConfig) where
  -- A later run: a `Runner` that has seen nothing, on the same file and the same disk.
  abbrev pub again : Client → Runner → Runner
  again c r = record r { seen = []; client = c }
