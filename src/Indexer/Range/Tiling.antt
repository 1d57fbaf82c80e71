-- ===== src/Indexer/Range/Tiling.antt =====
-- What `split_range` returns: consecutive ranges that tile the blocks, each of one batch at most.
use liquidity_scope.Prelude.{
  ℕ, zero, suc, ◌+◌, ◌-◌, ◌%◌, ◌≤◌, ◌<◌, ◌≡◌, refl, ap, ◌∙◌, ◌↔◌, ◌⊎◌, inl, inr, false, List, [],
  ◌∷◌, ◌++◌, arith, ◌==◌, nat_eq, list_eq, pair_eq, Result, ok, is_ok, Bool-cases, ne→beq_false,
  le→leb, le→ltb_false, lt→ltb, ◌>>=◌,
}
use native.Mathlib.Nat.{add-zero, zero-add}
use native.Mathlib.Decide.{dec_lt}
use liquidity_scope.Errors.{Error}
use liquidity_scope.Indexer.Range.{BlockRange, u64, range_end, split_loop, split_range}

-- The ranges cover start, …, last with no gap and no overlap; each holds at least one block and at
-- most `batch_size`, and every one but the final one holds exactly `batch_size`.
abbrev pub Tiles : ℕ → ℕ → ℕ → List BlockRange → Type 0
Tiles batch_size start last [] = start ≡ last + 1
Tiles batch_size start last (r ∷ rs) =
    (r.from_block ≡ start)
    × (start ≤ r.to_block)
    × (r.to_block < start + batch_size)
    × ((rs ≡ []) ⊎ (r.to_block + 1 ≡ start + batch_size))
    × Tiles batch_size (r.to_block + 1) last rs

range_end_lem :
    (start last b : ℕ)
    → 0 < b
    → start ≤ last
    → last < u64
    → last - start + 1 < u64
    → (start ≤ range_end start last b)
      × (range_end start last b < start + b)
      × (range_end start last b ≤ last)
      × ((range_end start last b ≡ last) ⊎ (range_end start last b + 1 ≡ start + b))
unfolding range_end
range_end_lem start last b pb h lu wu = ground arith

abbrev Tiled : ℕ → ℕ → ℕ → Result Error (List BlockRange) → Type 0
Tiled b start last r = (ranges : List BlockRange) × (r ≡ ok ranges) × Tiles b start last ranges

-- One range in front of the tiling of what follows it.
extend-Tiled :
    (b start stop last : ℕ) (rest : Result Error (List BlockRange))
    → start ≤ stop
    → stop < start + b
    → stop + 1 ≡ start + b
    → Tiled b (stop + 1) last rest
    → Tiled b start last
        (rest >>= λ ranges. ok (record { from_block = start; to_block = stop } ∷ ranges))
extend-Tiled b start stop last rest h k full (ranges, e, t) =
    (record { from_block = start; to_block = stop } ∷ ranges, rw e, (refl, h, k, inr full, t))

split_loop-Tiles :
    (fuel start last b : ℕ)
    → 0 < b
    → start ≤ last
    → last < u64
    → last - start + 1 < u64
    → last - start < fuel
    → Tiled b start last (split_loop fuel start last b)
unfolding split_loop
split_loop-Tiles zero start last b pb h lu wu fu = absurd (omega arith)
split_loop-Tiles (suc fuel) start last b pb h lu wu fu =
    let (lo, size, hi, full) = range_end_lem start last b pb h lu wu in
    let stop = range_end start last b in
    elim (Bool-cases (stop == last)) [
      | inl e ↦
          rw (le→leb start last h, e)
            (
              record { from_block = start; to_block = stop } ∷ [],
              refl,
              (refl, lo, size, inl refl, ground arith),
            )
      | inr e ↦
          let below : stop < last = ground arith in
          let next : (stop + 1) % u64 ≡ stop + 1 = omega arith in
          rw (le→leb start last h, e, next)
            (extend-Tiled b start stop last (split_loop fuel (stop + 1) last b) lo size
              (omega arith)
              (split_loop-Tiles fuel (stop + 1) last b pb (omega (arith, below)) lu (omega arith)
                (omega arith)))
    ]

split_range-eq-loop :
    (first last b : ℕ)
    → 0 < b
    → first ≤ last
    → split_range first last b ≡ split_loop (last - first + 1) first last b
unfolding split_range
split_range-eq-loop first last b pb h =
    rw (ne→beq_false b 0 (omega arith), le→ltb_false last first h)

-- With a batch size above 0, a range of blocks that is not empty and is not the whole of uint64 is
-- split into ranges that tile it, in order: the loop ends, and no sum wraps around.
pub split_range-Tiles :
    (first last batch_size : ℕ)
    → 0 < batch_size
    → first ≤ last
    → last < u64
    → last - first + 1 < u64
    → (ranges : List BlockRange) × (split_range first last batch_size ≡ ok ranges)
      × Tiles batch_size first last ranges
split_range-Tiles first last b pb h lu wu =
    rw (split_range-eq-loop first last b pb h)
      (split_loop-Tiles (last - first + 1) first last b pb h lu wu (omega arith))

-- The blocks of a list of ranges, in order.
abbrev pub interval : ℕ → ℕ → List ℕ
interval start zero = []
interval start (suc count) = start ∷ interval (suc start) count

abbrev pub blocks_of : List BlockRange → List ℕ
blocks_of [] = []
blocks_of (r ∷ rs) = interval r.from_block (r.to_block + 1 - r.from_block) ++ blocks_of rs

pub interval-append :
    (start m n : ℕ) → interval start m ++ interval (start + m) n ≡ interval start (m + n)
interval-append start zero n = simp (zero-add, add-zero)
interval-append start (suc m) n =
    let e : start + suc m ≡ suc start + m = omega arith in
    let d : suc m + n ≡ suc (m + n) = omega arith in
    rw (e, d) (ap (λ xs. start ∷ xs) (interval-append (suc start) m n))

-- What tiles start, …, last starts at most one block behind `last`.
pub Tiles-le :
    (b start last : ℕ) (ranges : List BlockRange) → Tiles b start last ranges → start ≤ last + 1
Tiles-le b start last [] t = omega arith
Tiles-le b start last (r ∷ rs) (e, lo, size, full, t) =
    omega (arith, Tiles-le b (r.to_block + 1) last rs t)

pub blocks_of-Tiles :
    (b start last : ℕ) (ranges : List BlockRange)
    → Tiles b start last ranges
    → blocks_of ranges ≡ interval start (last + 1 - start)
blocks_of-Tiles b start last [] t = let e : last + 1 - start ≡ 0 = omega arith in rw e
blocks_of-Tiles b start last (r ∷ rs) (e, lo, size, full, t) =
    let inside : r.to_block + 1 ≤ last + 1 = Tiles-le b (r.to_block + 1) last rs t in
    let ih = blocks_of-Tiles b (r.to_block + 1) last rs t in
    let count = r.to_block + 1 - start in
    let beyond = last + 1 - (r.to_block + 1) in
    let after : r.to_block + 1 ≡ start + count = omega arith in
    let whole : count + (last + 1 - (r.to_block + 1)) ≡ last + 1 - start = omega arith in
    rw (e, ih)
      (ap (λ (next : ℕ). interval start count ++ interval next beyond) after
        ∙ (interval-append start count beyond ∙ ap (interval start) whole))

-- With a batch size above 0, and for a range that is not empty and is not the whole of uint64, the
-- ranges hold every block from `first` to `last` exactly once, in ascending order.
pub blocks_of-split_range :
    (first last batch_size : ℕ)
    → 0 < batch_size
    → first ≤ last
    → last < u64
    → last - first + 1 < u64
    → (ranges : List BlockRange) × (split_range first last batch_size ≡ ok ranges)
      × (blocks_of ranges ≡ interval first (last + 1 - first))
blocks_of-split_range first last b pb h lu wu =
    let (ranges, e, t) = split_range-Tiles first last b pb h lu wu in
    (ranges, e, blocks_of-Tiles b first last ranges t)

split_loop_whole :
    (fuel b : ℕ)
    → split_loop (suc fuel) 0 (u64 - 1) b ≡ ok (record { from_block = 0; to_block = u64 - 1 } ∷ [])
unfolding split_loop range_end
split_loop_whole fuel b = rw (le→leb 0 b (omega arith))

-- On the whole of uint64 the count of blocks left wraps around to 0, so that every batch size above
-- 0 gives one range of 2^64 blocks.
pub split_range_whole :
    (batch_size : ℕ)
    → 0 < batch_size
    → split_range 0 (u64 - 1) batch_size ≡ ok (record { from_block = 0; to_block = u64 - 1 } ∷ [])
split_range_whole b pb =
    split_range-eq-loop 0 (u64 - 1) b pb (omega arith) ∙ split_loop_whole (u64 - 1) b

Tiled-ok :
    (b start last : ℕ) {r : Result Error (List BlockRange)}
    → Tiled b start last r
    → is_ok r ≡ false
    → ⊥
Tiled-ok b start last (ranges, e, t) failed = cc (e, failed)

rejects_zero : (first last b : ℕ) → b ≡ 0 → is_ok (split_range first last b) ≡ false
unfolding split_range
rejects_zero first last b z = rw z

rejects_reversed : (first last b : ℕ) → last < first → is_ok (split_range first last b) ≡ false
unfolding split_range
rejects_reversed first last b h = elim (Bool-cases (b == 0)) [
  | inl z ↦ rw z
  | inr nz ↦ rw (nz, lt→ltb last first h)
]

-- Where the end is in uint64 and the range is not the whole of it, `split_range` fails exactly on a
-- batch size of 0 or on a range whose end lies before its start.
pub split_range-fails :
    (first last batch_size : ℕ)
    → last < u64
    → last - first + 1 < u64
    → (is_ok (split_range first last batch_size) ≡ false) ↔ ((batch_size ≡ 0) ⊎ (last < first))
split_range-fails first last b lu wu = (
  λ failed. elim (dec_lt 0 b) [
    | no z ↦ inl (omega arith)
    | yes pb ↦ elim (dec_lt last first) [
      | yes h ↦ inr h
      | no h ↦
          absurd
            (Tiled-ok b first last (split_range-Tiles first last b pb (omega arith) lu wu) failed)
    ]
  ],
  λ bad. elim bad [ inl z ↦ rejects_zero first last b z | inr h ↦ rejects_reversed first last b h ],
)
