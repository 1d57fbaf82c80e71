-- ===== src/Indexer/Range/Prefix.antt =====
-- The first ranges of a list that `SplitRange` (internal/indexer/range.go) returned.
use liquidity_scope.Prelude.{
  ℕ, ◌+◌, ◌-◌, ◌≤◌, ◌≡◌, refl, sym, ap, ◌∙◌, ◌⊎◌, inl, inr, Option, some, List, [], ◌∷◌, ◌++◌,
  append_assoc, arith, nat_eq, list_eq, pair_eq,
}
use liquidity_scope.Indexer.Range.{BlockRange}
use liquidity_scope.Indexer.Range.Tiling.{Tiles, Tiles-le, interval, interval-append, blocks_of}

-- Consecutive intervals make one.
pub interval_join :
    (a b c : ℕ) → a ≤ b → b ≤ c → interval a (b - a) ++ interval b (c - b) ≡ interval a (c - a)
interval_join a b c h k =
    let next : b ≡ a + (b - a) = omega arith in
    let whole : (b - a) + (c - b) ≡ c - a = omega arith in
    ap (λ (n : ℕ). interval a (b - a) ++ interval n (c - b)) next
    ∙ (interval-append a (b - a) (c - b) ∙ ap (interval a) whole)

pub blocks_of-append :
    (xs ys : List BlockRange) → blocks_of (xs ++ ys) ≡ blocks_of xs ++ blocks_of ys
blocks_of-append [] ys = refl
blocks_of-append (x ∷ xs) ys =
    let own = interval x.from_block (x.to_block + 1 - x.from_block) in
    ap (λ bs. own ++ bs) (blocks_of-append xs ys)
    ∙ sym (append_assoc own (blocks_of xs) (blocks_of ys))

-- The last block of the ranges, if there are some.
abbrev pub last_of : Option ℕ → List BlockRange → Option ℕ
last_of o [] = o
last_of o (range ∷ ranges) = last_of (some range.to_block) ranges

-- The first ranges of a tiling hold the blocks up to the last of them.
pub Tiles-prefix :
    (b start last : ℕ) (done rest : List BlockRange) (o : Option ℕ)
    → Tiles b start last (done ++ rest)
    → (next : ℕ) × (start ≤ next)
      × (next ≤ last + 1)
      × (blocks_of done ≡ interval start (next - start))
      × (((done ≡ []) × (next ≡ start))
          ⊎ ((block : ℕ) × (last_of o done ≡ some block) × (start ≤ block) × (block + 1 ≡ next)))
Tiles-prefix b start last [] rest o t =
    let none_left : start - start ≡ 0 = omega arith in
    (start, omega arith, Tiles-le b start last rest t, rw none_left refl, inl (refl, refl))
Tiles-prefix b start last (r ∷ done) rest o (from_start, lo, size, full, t) =
    let (next, above, below, blocks, end) =
      Tiles-prefix b (r.to_block + 1) last done rest (some r.to_block) t in
    (
      next,
      omega (arith, lo, above),
      below,
      rw (from_start, blocks) (interval_join start (r.to_block + 1) next (omega (arith, lo)) above),
      inr (elim end [
        | inl (nothing, e) ↦
            (r.to_block, ap (last_of (some r.to_block)) nothing, lo, omega (arith, e))
        | inr (block, e, k, f) ↦ (block, e, omega (arith, lo, k), f)
      ]),
    )
