-- ===== src/Indexer/Range/Ends.antt =====
-- The loop of `split_range` ends.
use liquidity_scope.Prelude.{
  ℕ, ◌+◌, ◌-◌, ◌≤◌, ◌<◌, ◌≡◌, ◌⊎◌, inl, inr, List, [], ◌∷◌, arith, ltb, ◌==◌, nat_eq, list_eq,
  pair_eq, ok, err, Bool-cases,
}
use liquidity_scope.Errors.{batch_size_zero, to_before_from}
use liquidity_scope.Indexer.Range.{BlockRange, u64, split_range}
use liquidity_scope.Indexer.Range.Tiling.{split_range-Tiles, split_range_whole}
use native.Mathlib.Decide.{dec_lt}

-- Every call of `split_range` whose end is in uint64 returns: a list of ranges, or one of its two
-- errors. The rounds that its loop is given are always enough, on the whole of uint64 too.
pub split_range-ends :
    (first last batch_size : ℕ)
    → last < u64
    → ((ranges : List BlockRange) × (split_range first last batch_size ≡ ok ranges))
      ⊎ ((split_range first last batch_size ≡ err batch_size_zero)
          ⊎ (split_range first last batch_size ≡ err to_before_from))
unfolding split_range
split_range-ends first last b lu = elim (Bool-cases (b == 0)) [
  | inl z ↦ inr (inl (rw z))
  | inr nz ↦ elim (Bool-cases (ltb last first)) [
    | inl h ↦ inr (inr (rw (nz, h)))
    | inr h ↦
        let positive : 0 < b = ground arith in
        let ordered : first ≤ last = ground arith in
        elim (dec_lt (last - first + 1) u64) [
          | yes w ↦
              let (ranges, e, _) = split_range-Tiles first last b positive ordered lu w in
              inl (ranges, e)
          | no w ↦
              let at_zero : first ≡ 0 = omega arith in
              let at_end : last ≡ u64 - 1 = omega arith in
              inl (
                record { from_block = 0; to_block = u64 - 1 } ∷ [],
                rw (at_zero, at_end) (split_range_whole b positive),
              )
        ]
  ]
]
