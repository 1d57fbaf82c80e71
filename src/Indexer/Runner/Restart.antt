-- ===== src/Indexer/Runner/Restart.antt =====
-- How far a run of `Runner` (internal/indexer/runner.go) got that began without a checkpoint.
use liquidity_scope.Prelude.{
  ℕ, ◌+◌, ◌-◌, ◌≤◌, ◌<◌, ◌≡◌, refl, ap, ◌∙◌, subst, ◌⊎◌, inl, inr, true, Option, none, some, List,
  [], ◌∷◌, arith, ltb, nat_eq, list_eq, pair_eq, ok, Bool-cases, All, le→ltb_false, some_inj,
  Result-cases,
}
use liquidity_scope.Prelude.Dict
use liquidity_scope.Storage.Files.{Entry}
use liquidity_scope.Indexer.Checkpoint
use liquidity_scope.Indexer.Checkpoint.{Checkpoint}
use liquidity_scope.Indexer.Checkpoint.Recovery.{load_ok-none, load-entries}
use liquidity_scope.Indexer.Range.{BlockRange, u64, split_range}
use liquidity_scope.Indexer.Range.Tiling.{Tiles, split_range-Tiles, blocks_of, interval}
use liquidity_scope.Indexer.Range.Prefix.{last_of, Tiles-prefix}
use liquidity_scope.Indexer.Runner.{
  Outside, RunConfig, Runner, process_ranges, sync, resume_from, with_checkpoint,
}
use liquidity_scope.Indexer.Runner.Stored.{Grows, KnownOnFile, Stored}
use liquidity_scope.Indexer.Runner.Written.{process_ranges-Grows, process_ranges-Stored}
use liquidity_scope.Indexer.Runner.Progress.{Saved, Reached, checkpoint_entry}
use liquidity_scope.Indexer.Runner.Complete.{IsComplete, sync-IsComplete}
use liquidity_scope.Indexer.Runner.Resume.{behind_load}

module _ (out : Outside) (cfg : RunConfig) where
  last_of-Saved :
      (b0 block : ℕ) (done : List BlockRange) (e : Option Entry)
      → last_of (some b0) done ≡ some block
      → Reached out cfg (Saved out cfg b0) done e
      → Saved out cfg block e
  last_of-Saved b0 block [] e h (cp, says, same) = (cp, says ∙ some_inj h, same)
  last_of-Saved b0 block (range ∷ done) e h reached =
      last_of-Saved range.to_block block done e h reached

  -- The entry is the checkpoint of the block before `next`, or there is none and `next` is `first`.
  abbrev pub Points : ℕ → ℕ → Option Entry → Type 0
  Points first next e =
      ((next ≡ first) × (e ≡ none))
      ⊎ ((block : ℕ) × Saved out cfg block e × (first ≤ block) × (block + 1 ≡ next))

  -- The ranges up to the block before `next` are stored, and the checkpoint says so.
  abbrev pub GotTo : ℕ → ℕ → Runner → Type 0
  GotTo first last r =
      (done : List BlockRange) × (next : ℕ) × (first ≤ next)
      × (next ≤ last + 1)
      × (blocks_of done ≡ interval first (next - first))
      × All (Stored out cfg r) done
      × Points first next (checkpoint_entry out cfg r)

  done-Points :
      (first next : ℕ) (done : List BlockRange) (e : Option Entry)
      → Reached out cfg (λ x. x ≡ none) done e
      → ((done ≡ []) × (next ≡ first))
        ⊎ ((block : ℕ) × (last_of none done ≡ some block) × (first ≤ block) × (block + 1 ≡ next))
      → Points first next e
  done-Points first next [] e reached (inl (_, same)) = inl (same, reached)
  done-Points first next [] e reached (inr (block, h, _, _)) = absurd (cc h)
  done-Points first next (range ∷ done) e reached (inl (h, _)) = absurd (cc h)
  done-Points first next (range ∷ done) e reached (inr (block, h, k, f)) =
      inr (block, last_of-Saved range.to_block block done e h reached, k, f)

  sync-GotTo :
      (chain_id first last : ℕ) (r : Runner)
      → cfg.checkpoint.enabled ≡ true
      → KnownOnFile r
      → 0 < cfg.batch_size
      → first ≤ last
      → last < u64
      → last - first + 1 < u64
      → checkpoint_entry out cfg r ≡ none
      → GotTo first last (sync out cfg chain_id first last r).1
  unfolding sync
  sync-GotTo chain_id first last r on known b h lu wu bare =
      let (ranges, split, t) = split_range-Tiles first last cfg.batch_size b h lu wu in
      let e = le→ltb_false last first h in
      let (_, r') = process_ranges out cfg chain_id ranges r in
      let P : Option Entry → Type 0 = λ x. x ≡ none in
      let (done, rest, parts, _, stored, reached) =
        process_ranges-Stored out cfg P chain_id ranges r on known bare in
      let (next, above, below, blocks, end) =
        Tiles-prefix cfg.batch_size first last done rest none
          (subst (Tiles cfg.batch_size first last) parts t) in
      rw (e, split)
        (
          done,
          next,
          above,
          below,
          blocks,
          stored,
          done-Points first next done (checkpoint_entry out cfg r') reached end,
        )

  -- Loading leaves the entries as they are.
  pub behind_load-entry :
      (r : Runner) → checkpoint_entry out cfg (behind_load out cfg r) ≡ checkpoint_entry out cfg r
  behind_load-entry r =
      ap (λ es. Dict.lookup cfg.checkpoint.path es)
        (load-entries out.os out.codec cfg.checkpoint r.disk)

  pub with_checkpoint-GotTo :
      (chain_id last : ℕ) (r : Runner)
      → cfg.checkpoint.enabled ≡ true
      → KnownOnFile r
      → 0 < cfg.batch_size
      → cfg.from_block ≤ last
      → last + 1 < u64
      → checkpoint_entry out cfg r ≡ none
      → GotTo cfg.from_block last (with_checkpoint out cfg chain_id last r).1
  unfolding with_checkpoint resume_from
  with_checkpoint-GotTo chain_id last r on known b h lu bare =
      let r' = behind_load out cfg r in
      let (answer, _) = Checkpoint.load out.os out.codec cfg.checkpoint r.disk in
      let still : checkpoint_entry out cfg r' ≡ none = behind_load-entry r ∙ bare in
      elim (Result-cases answer) [
        | inl (x, f) ↦
            let nothing : cfg.from_block - cfg.from_block ≡ 0 = omega arith in
            rw (with_checkpoint, f)
              (
                [],
                cfg.from_block,
                omega arith,
                omega (arith, h),
                rw nothing refl,
                tt,
                inl (refl, still),
              )
        | inr (o, f) ↦
            let found = load_ok-none out.os out.codec cfg.checkpoint r.disk o on bare f in
            rw (with_checkpoint, resume_from, f, found)
              (sync-GotTo chain_id cfg.from_block last r' on known b h (omega (arith, lu))
                (omega (arith, lu, h)) still)
      ]

  -- A run that found no checkpoint and ended without an error.
  pub with_checkpoint-afresh :
      (chain_id last : ℕ) (r : Runner)
      → cfg.checkpoint.enabled ≡ true
      → KnownOnFile r
      → 0 < cfg.batch_size
      → cfg.from_block ≤ last
      → last + 1 < u64
      → checkpoint_entry out cfg r ≡ none
      → (with_checkpoint out cfg chain_id last r).0 ≡ ok tt
      → IsComplete out cfg cfg.from_block last (with_checkpoint out cfg chain_id last r).1
  unfolding with_checkpoint resume_from
  with_checkpoint-afresh chain_id last r on known b h lu bare ended =
      let (answer, _) = Checkpoint.load out.os out.codec cfg.checkpoint r.disk in
      elim (Result-cases answer) [
        | inl (x, f) ↦ absurd (cc (rw (with_checkpoint, f) at ended))
        | inr (o, f) ↦
            let found = load_ok-none out.os out.codec cfg.checkpoint r.disk o on bare f in
            rw (with_checkpoint, resume_from, f, found)
              (sync-IsComplete out cfg chain_id cfg.from_block last (behind_load out cfg r) on known
                b h (omega (arith, lu)) (omega (arith, lu, h))
                (rw (with_checkpoint, resume_from, f, found) at ended))
      ]

  sync-Grows :
      (chain_id first last : ℕ) (r : Runner) → Grows r (sync out cfg chain_id first last r).1
  unfolding sync
  sync-Grows chain_id first last r k = elim (Bool-cases (ltb last first)) [
    | inl e ↦ rw e (omega arith)
    | inr e ↦ elim (Result-cases (split_range first last cfg.batch_size)) [
      | inl (x, f) ↦ rw (e, f) (omega arith)
      | inr (ranges, f) ↦ rw (e, f) (process_ranges-Grows out cfg chain_id ranges r k)
    ]
  ]

  pub with_checkpoint-Grows :
      (chain_id last : ℕ) (r : Runner) → Grows r (with_checkpoint out cfg chain_id last r).1
  unfolding with_checkpoint
  with_checkpoint-Grows chain_id last r k =
      let (answer, _) = Checkpoint.load out.os out.codec cfg.checkpoint r.disk in
      elim (Result-cases answer) [
        | inl (x, f) ↦ rw (with_checkpoint, f) (omega arith)
        | inr (o, f) ↦
            rw (with_checkpoint, f)
              (sync-Grows chain_id (resume_from out cfg o) last (behind_load out cfg r) k)
      ]
