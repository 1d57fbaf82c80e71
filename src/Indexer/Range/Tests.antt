-- ===== src/Indexer/Range/Tests.antt =====
-- internal/indexer/range_test.go, and the theorems at concrete ranges.
use liquidity_scope.Prelude.{
  ℕ, ◌-◌, ◌<◌, ◌≡◌, refl, ◌↔◌, ◌⊎◌, false, List, [], ◌∷◌, arith, nat_eq, list_eq, pair_eq, ok, err,
  is_ok,
}
use liquidity_scope.Errors.{batch_size_zero, to_before_from}
use liquidity_scope.Indexer.Range.{BlockRange, split_range, u64}
use liquidity_scope.Indexer.Range.Ends.{split_range-ends}
use liquidity_scope.Indexer.Range.Tiling.{
  Tiles, blocks_of, split_range-Tiles, blocks_of-split_range, split_range-fails, split_range_whole,
}

abbrev three_ranges : List BlockRange
three_ranges =
    record { from_block = 100; to_block = 101 }
    ∷ record { from_block = 102; to_block = 103 }
    ∷ record { from_block = 104; to_block = 105 }
    ∷ []

test_split_range : split_range 100 105 2 ≡ ok three_ranges
unfolding split_range
test_split_range = refl

test_split_range_invalid :
    (split_range 10 9 1 ≡ err to_before_from) × (split_range 1 10 0 ≡ err batch_size_zero)
unfolding split_range
test_split_range_invalid = (refl, refl)

split_range-Tiles_example :
    (ranges : List BlockRange) × (split_range 100 105 2 ≡ ok ranges) × Tiles 2 100 105 ranges
split_range-Tiles_example =
    split_range-Tiles 100 105 2 (omega arith) (omega arith) (omega arith) (omega arith)

blocks_of-split_range_example :
    (ranges : List BlockRange) × (split_range 100 104 2 ≡ ok ranges)
    × (blocks_of ranges ≡ 100 ∷ 101 ∷ 102 ∷ 103 ∷ 104 ∷ [])
blocks_of-split_range_example =
    blocks_of-split_range 100 104 2 (omega arith) (omega arith) (omega arith) (omega arith)

split_range-fails_example : (is_ok (split_range 10 9 1) ≡ false) ↔ (◌≡◌ {A = ℕ} 1 0 ⊎ (9 < 10))
split_range-fails_example = split_range-fails 10 9 1 (omega arith) (omega arith)

split_range_whole_example :
    split_range 0 (u64 - 1) 1000 ≡ ok (record { from_block = 0; to_block = u64 - 1 } ∷ [])
split_range_whole_example = split_range_whole 1000 (omega arith)

split_range-ends_example :
    ((ranges : List BlockRange) × (split_range 0 (u64 - 1) 7 ≡ ok ranges))
    ⊎ ((split_range 0 (u64 - 1) 7 ≡ err batch_size_zero)
        ⊎ (split_range 0 (u64 - 1) 7 ≡ err to_before_from))
split_range-ends_example = split_range-ends 0 (u64 - 1) 7 (omega arith)
