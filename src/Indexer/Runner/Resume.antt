-- ===== src/Indexer/Runner/Resume.antt =====
-- How `Runner` (internal/indexer/runner.go) goes on from the checkpoint of an earlier run.
use liquidity_scope.Prelude.{◌+◌, ◌≤◌, ◌<◌, ◌≡◌, some, arith, nat_eq, list_eq, pair_eq}
use liquidity_scope.Indexer.Range.{u64}
use liquidity_scope.Indexer.Checkpoint
use liquidity_scope.Indexer.Checkpoint.{Checkpoint}
use liquidity_scope.Indexer.Runner.{Outside, RunConfig, Runner, resume_from}

module _ (out : Outside) (cfg : RunConfig) where
  -- The runner once the checkpoint is loaded.
  abbrev pub behind_load : Runner → Runner
  behind_load r = record r { disk = (Checkpoint.load out.os out.codec cfg.checkpoint r.disk).1 }

  pub resume_from_lem :
      (cp : Checkpoint)
      → cfg.from_block ≤ cp.last_processed_block
      → cp.last_processed_block + 1 < u64
      → resume_from out cfg (some cp) ≡ cp.last_processed_block + 1
  unfolding resume_from
  resume_from_lem cp h lu = ground arith
