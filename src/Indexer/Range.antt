-- ===== src/Indexer/Range.antt =====
-- internal/indexer/range.go: `SplitRange`, with the wrap-around of uint64 written out.
pub mod Tiling
pub mod Prefix
pub mod Ends
mod Tests
use liquidity_scope.Prelude.{
  ℕ, zero, suc, ◌+◌, ◌-◌, ◌%◌, ◌^◌, List, [], ◌∷◌, leb, ltb, ◌==◌, nat_eq, if◌then◌else◌, Result,
  ok, err, ◌>>=◌,
}
use liquidity_scope.Errors.{Error, batch_size_zero, to_before_from, out_of_fuel}

abbrev pub u64 : ℕ
u64 = 2 ^ 64

pub record BlockRange : Type 0 where
  pub from_block : ℕ
  pub to_block : ℕ

-- `end` of one round of the loop.
range_end : ℕ → ℕ → ℕ → ℕ
range_end start last batch_size =
    let remaining = (last - start + 1) % u64 in
    if leb remaining batch_size then last else (start + batch_size + u64 - 1) % u64

-- The loop from `start`, with fuel for its rounds; `start ≤ to` in each round that is made.
split_loop : ℕ → ℕ → ℕ → ℕ → Result Error (List BlockRange)
unfolding range_end
split_loop zero start last batch_size = err out_of_fuel
split_loop (suc fuel) start last batch_size =
    let stop = range_end start last batch_size in
    let range : BlockRange = record { from_block = start; to_block = stop } in
    let rest = split_loop fuel ((stop + 1) % u64) last batch_size in
    if leb start last
    then (if stop == last then ok (range ∷ []) else (rest >>= λ ranges. ok (range ∷ ranges)))
    else ok []

-- `SplitRange`. One round for each block is enough fuel.
unfoldable pub split_range : ℕ → ℕ → ℕ → Result Error (List BlockRange)
unfolding split_loop
split_range first last batch_size =
    if batch_size == 0
    then err batch_size_zero
    else if ltb last first
    then err to_before_from
    else split_loop (last - first + 1) first last batch_size
