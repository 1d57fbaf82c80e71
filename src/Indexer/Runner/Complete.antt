-- ===== src/Indexer/Runner/Complete.antt =====
-- What a run of `Runner` (internal/indexer/runner.go) without an error has left behind.
use liquidity_scope.Prelude.{
  ℕ, ◌+◌, ◌-◌, ◌≤◌, ◌<◌, ◌≡◌, refl, sym, ap, ◌∙◌, subst, true, Option, List, [], ◌∷◌, ◌++◌,
  append-nil, arith, nat_eq, list_eq, pair_eq, ok, is_ok, is_empty, All, le→ltb_false,
}
use liquidity_scope.Storage.Files.{Entry}
use liquidity_scope.Indexer.Range.{BlockRange, u64}
use liquidity_scope.Indexer.Range.Tiling.{
  Tiles, split_range-Tiles, blocks_of, interval, blocks_of-Tiles,
}
use liquidity_scope.Indexer.Runner.{Outside, RunConfig, Runner, process_ranges, sync}
use liquidity_scope.Indexer.Runner.Progress.{Saved, Reached, checkpoint_entry}
use liquidity_scope.Indexer.Runner.Stored.{KnownOnFile, Stored}
use liquidity_scope.Indexer.Runner.Written.{process_ranges-Stored}

module _ (out : Outside) (cfg : RunConfig) where
  Reached-Saved :
      (P : Option Entry → Type 0) (b start last : ℕ) (range : BlockRange) (ranges : List BlockRange)
      (e : Option Entry)
      → Tiles b start last (range ∷ ranges)
      → Reached out cfg P (range ∷ ranges) e
      → Saved out cfg last e
  Reached-Saved P b start last range [] e (_, _, _, _, ends) (cp, block, same) =
      (cp, omega (arith, block, ends), same)
  Reached-Saved P b start last range (next ∷ ranges) e (_, _, _, _, t) h =
      Reached-Saved (Saved out cfg range.to_block) b (range.to_block + 1) last next ranges e t h

  whole_list :
      (ranges done rest : List BlockRange)
      → ranges ≡ done ++ rest
      → is_empty rest ≡ true
      → ranges ≡ done
  whole_list ranges done [] e h = e ∙ append-nil done
  whole_list ranges done (x ∷ rest) e h = cc

  -- The logs that the node has answered for ranges which hold the blocks from `first` to `last`, in
  -- order, stand on lines of the file, and the checkpoint's file is there and says `last`.
  abbrev pub IsComplete : ℕ → ℕ → Runner → Type 0
  IsComplete first last r =
      (ranges : List BlockRange) × (blocks_of ranges ≡ interval first (last + 1 - first))
      × All (Stored out cfg r) ranges
      × Saved out cfg last (checkpoint_entry out cfg r)

  process_ranges-IsComplete :
      (chain_id start last : ℕ) (ranges : List BlockRange) (r : Runner)
      → cfg.checkpoint.enabled ≡ true
      → KnownOnFile r
      → start ≤ last
      → Tiles cfg.batch_size start last ranges
      → (process_ranges out cfg chain_id ranges r).0 ≡ ok tt
      → IsComplete start last (process_ranges out cfg chain_id ranges r).1
  process_ranges-IsComplete chain_id start last [] r on known h t done =
      absurd (omega (arith, t, h))
  process_ranges-IsComplete chain_id start last (range ∷ ranges) r on known h t ended =
      let (_, r') = process_ranges out cfg chain_id (range ∷ ranges) r in
      let P : Option Entry → Type 0 = λ e. e ≡ checkpoint_entry out cfg r in
      let (done, rest, parts, ends, stored, reached) =
        process_ranges-Stored out cfg P chain_id (range ∷ ranges) r on known refl in
      let all : range ∷ ranges ≡ done =
        whole_list (range ∷ ranges) done rest parts (sym ends ∙ ap is_ok ended) in
      (
        range ∷ ranges,
        blocks_of-Tiles cfg.batch_size start last (range ∷ ranges) t,
        subst (All (Stored out cfg r')) (sym all) stored,
        Reached-Saved P cfg.batch_size start last range ranges (checkpoint_entry out cfg r') t
            (subst (λ rs. Reached out cfg P rs (checkpoint_entry out cfg r')) (sym all) reached),
      )

  pub sync-IsComplete :
      (chain_id first last : ℕ) (r : Runner)
      → cfg.checkpoint.enabled ≡ true
      → KnownOnFile r
      → 0 < cfg.batch_size
      → first ≤ last
      → last < u64
      → last - first + 1 < u64
      → (sync out cfg chain_id first last r).0 ≡ ok tt
      → IsComplete first last (sync out cfg chain_id first last r).1
  unfolding sync
  sync-IsComplete chain_id first last r on known b h lu wu ended =
      let (ranges, split, t) = split_range-Tiles first last cfg.batch_size b h lu wu in
      let e = le→ltb_false last first h in
      rw (e, split)
        (process_ranges-IsComplete chain_id first last ranges r on known h t
          (rw (e, split) at ended))
