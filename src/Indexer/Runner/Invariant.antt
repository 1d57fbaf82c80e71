-- ===== src/Indexer/Runner/Invariant.antt =====
-- What each range keeps true of a `Runner`, the whole run keeps true.
use liquidity_scope.Prelude.{
  ℕ, ◌^◌, ◌≡◌, refl, inl, inr, List, [], ◌∷◌, ltb, leb, ◌==◌, nat_eq, list_eq, pair_eq, Bool-cases,
  is_empty, Result-cases,
}
use liquidity_scope.Chain
use liquidity_scope.Chain.{Client, get_chain_id, latest_block_number}
use liquidity_scope.Storage.Files.{Disk}
use liquidity_scope.Indexer.Range.{BlockRange, split_range}
use liquidity_scope.Indexer.Checkpoint
use liquidity_scope.Indexer.Runner.{
  resume_from, last_block, sync, with_checkpoint, run, Outside, RunConfig, Runner, process_range,
  process_ranges,
}

-- An invariant that the ranges keep, and that neither a change of the disk nor one of the client that
-- leaves its cache alone can break.
pub record IsInvariant (out : Outside) (cfg : RunConfig) (I : Runner → Type 0) : Type 0 where
  pub disk : (r : Runner) (d : Disk) → I r → I (record r { disk = d })
  pub client :
      (r : Runner) (c : Client) → c.ts_cache ≡ r.client.ts_cache → I r → I (record r { client = c })
  pub range :
      (chain_id : ℕ) (range : BlockRange) (r : Runner)
      → I r
      → I (process_range out cfg chain_id range r).1

module _ (out : Outside) (cfg : RunConfig) (I : Runner → Type 0)
    (keeps : IsInvariant out cfg I) where
  process_ranges_keeps :
      (chain_id : ℕ) (ranges : List BlockRange) (r : Runner)
      → I r
      → I (process_ranges out cfg chain_id ranges r).1
  unfolding process_ranges
  process_ranges_keeps chain_id [] r h = h
  process_ranges_keeps chain_id (range ∷ ranges) r h =
      let h1 = keeps.range chain_id range r h in
      elim (Result-cases (process_range out cfg chain_id range r).0) [
        | inl (e, f) ↦ rw f h1
        | inr (_, f) ↦
            rw f
              (process_ranges_keeps chain_id ranges (process_range out cfg chain_id range r).1 h1)
      ]

  sync_keeps :
      (chain_id first last : ℕ) (r : Runner) → I r → I (sync out cfg chain_id first last r).1
  unfolding sync
  sync_keeps chain_id first last r h = elim (Bool-cases (ltb last first)) [
    | inl e ↦ rw e h
    | inr e ↦ elim (Result-cases (split_range first last cfg.batch_size)) [
      | inl (_, f) ↦ rw (e, f) h
      | inr (ranges, f) ↦ rw (e, f) (process_ranges_keeps chain_id ranges r h)
    ]
  ]

  with_checkpoint_keeps :
      (chain_id last : ℕ) (r : Runner) → I r → I (with_checkpoint out cfg chain_id last r).1
  unfolding with_checkpoint
  with_checkpoint_keeps chain_id last r h =
      let (loaded, disk) = Checkpoint.load out.os out.codec cfg.checkpoint r.disk in
      let r' = record r { disk = disk } in
      let h' = keeps.disk r disk h in
      elim (Result-cases loaded) [
        | inl (_, f) ↦ rw (with_checkpoint, f) h'
        | inr (cp, f) ↦
            rw (with_checkpoint, f) (sync_keeps chain_id (resume_from out cfg cp) last r' h')
      ]

  last_block-ts_cache : (c : Client) → (last_block out cfg c).1.ts_cache ≡ c.ts_cache
  unfolding last_block latest_block_number
  last_block-ts_cache c = elim (Bool-cases (cfg.to_block == 0)) [
    | inl e ↦ rw (e, last_block) refl
    | inr e ↦ rw (e, last_block) refl
  ]

  pub run_keeps : (r : Runner) → I r → I (run out cfg r).1
  unfolding run get_chain_id
  run_keeps r h =
      let (answer, client) = Chain.get_chain_id out.node r.client in
      let (last, client') = last_block out cfg client in
      let h1 = keeps.client r client refl h in
      let h2 = keeps.client r client' (last_block-ts_cache client) h in
      elim (Bool-cases (cfg.batch_size == 0)) [
        | inl e ↦ rw (run, e) h
        | inr e ↦ elim (Bool-cases (is_empty cfg.addresses)) [
          | inl f ↦ rw (run, e, f) h
          | inr f ↦ elim (Result-cases answer) [
            | inl (_, g) ↦ rw (run, e, f, g) h1
            | inr (chain_id, g) ↦ elim (Bool-cases (leb (2 ^ 64) chain_id)) [
              | inl i ↦ rw (run, e, f, g, i) h1
              | inr i ↦ elim (Result-cases last) [
                | inl (_, j) ↦ rw (run, e, f, g, i, j) h2
                | inr (to_block, j) ↦
                    rw (run, e, f, g, i, j)
                      (with_checkpoint_keeps chain_id to_block (record r { client = client' }) h2)
              ]
            ]
          ]
        ]
      ]
