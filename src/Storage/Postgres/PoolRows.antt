-- ===== src/Storage/Postgres/PoolRows.antt =====
-- The columns that `UpsertPools` of internal/storage/postgres/store.go leaves in a row.
use liquidity_scope.Prelude.{
  ◌≡◌, refl, ap, ◌∙◌, subst, ◌≢◌, ◌⊎◌, inl, inr, true, Option, none, some, List, [], ◌∷◌, ◌++◌,
  arith, ◌==◌, nat_eq, list_eq, pair_eq, if◌then◌else◌, Bool-cases, All, pair_beq_iff,
}
use liquidity_scope.Prelude.Int.{ℤ, int_eq, leb_ℤ, to_int64}
use liquidity_scope.Prelude.Dict
use liquidity_scope.Prelude.Dict.{Dict, lookup-insert}
use liquidity_scope.Model.{Pool}
use liquidity_scope.Storage.Postgres.{
  PoolKey, PoolRow, pool_row_of, merge_pool, least, put_pool, put_pools,
}
use liquidity_scope.Storage.Postgres.Upserts.{lookup-put_pool}

abbrev pub key_of : Pool → PoolKey
key_of p = (to_int64 p.chain_id, p.address)

-- The first block in the row that was there.
abbrev pub block_in : Option PoolRow → List ℤ
block_in none = []
block_in (some row) = row.first_seen_block ∷ []

-- The first blocks of the pools that have this key.
abbrev pub blocks_seen : PoolKey → List Pool → List ℤ
blocks_seen k [] = []
blocks_seen k (p ∷ ps) =
    let rest = blocks_seen k ps in
    if key_of p == k then to_int64 p.first_seen_block ∷ rest else rest

abbrev pub Among : ℤ → List ℤ → Type 0
Among x [] = ⊥
Among x (y ∷ ys) = (x ≡ y) ⊎ Among x ys

abbrev pub IsLeast : ℤ → List ℤ → Type 0
IsLeast x ys = Among x ys × All (λ (y : ℤ). leb_ℤ x y ≡ true) ys

-- The pool is the last one of this key in the batch.
abbrev pub IsLastPool : PoolKey → List Pool → Pool → Type 0
IsLastPool k ps p =
    (before : List Pool) × (after : List Pool) × (ps ≡ before ++ p ∷ after)
    × (key_of p ≡ k)
    × All (λ (x : Pool). key_of x ≢ k) after

abbrev pub HasTokens : Pool → PoolRow → Type 0
HasTokens p row =
    (row.token0 ≡ p.token0)
    × (row.token1 ≡ p.token1)
    × (row.fee ≡ p.fee)
    × (row.tick_spacing ≡ p.tick_spacing)

leb_ℤ_trans : (a b c : ℤ) → leb_ℤ a b ≡ true → leb_ℤ b c ≡ true → leb_ℤ a c ≡ true
leb_ℤ_trans a b c h k = ground arith

least_bounds :
    (a b : ℤ)
    → (leb_ℤ (least a b) a ≡ true)
      × (leb_ℤ (least a b) b ≡ true)
      × ((least a b ≡ a) ⊎ (least a b ≡ b))
least_bounds a b = ground arith

leb_ℤ_refl : (a : ℤ) → leb_ℤ a a ≡ true
leb_ℤ_refl a = ground arith

-- The least of two stands for both.
IsLeast-least : (a b x : ℤ) (ys : List ℤ) → IsLeast x (least a b ∷ ys) → IsLeast x (a ∷ b ∷ ys)
IsLeast-least a b x ys (among, (le, all)) =
    let (la, lb, which) = least_bounds a b in
    (
      elim among [
        | inr m ↦ inr (inr m)
        | inl e ↦ elim which [ inl f ↦ inl (e ∙ f) | inr f ↦ inr (inl (e ∙ f)) ]
      ],
      (leb_ℤ_trans x (least a b) a le la, (leb_ℤ_trans x (least a b) b le lb, all)),
    )

IsLeast-merge :
    (p : Pool) (o : Option PoolRow) (x : ℤ) (ys : List ℤ)
    → IsLeast x (block_in (some (merge_pool o (pool_row_of p))) ++ ys)
    → IsLeast x (block_in o ++ to_int64 p.first_seen_block ∷ ys)
IsLeast-merge p none x ys h = h
IsLeast-merge p (some old) x ys h =
    IsLeast-least old.first_seen_block (to_int64 p.first_seen_block) x ys h

merge_pool-HasTokens : (p : Pool) (o : Option PoolRow) → HasTokens p (merge_pool o (pool_row_of p))
merge_pool-HasTokens p none = (refl, refl, refl, refl)
merge_pool-HasTokens p (some old) = (refl, refl, refl, refl)

blocks_seen-none :
    (k : PoolKey) (ps : List Pool) → All (λ (x : Pool). key_of x ≢ k) ps → blocks_seen k ps ≡ []
blocks_seen-none k [] h = refl
blocks_seen-none k (p ∷ ps) (differs, h) = elim (Bool-cases (key_of p == k)) [
  | inl e ↦ absurd (differs ((pair_beq_iff (key_of p) k).0 e))
  | inr e ↦ rw e (blocks_seen-none k ps h)
]

-- What the table has of a pool behind a batch.
abbrev pub HasPool : PoolKey → List Pool → Option PoolRow → Option PoolRow → Type 0
HasPool k ps old new =
    (p : Pool) × (row : PoolRow) × IsLastPool k ps p
    × (new ≡ some row)
    × HasTokens p row
    × IsLeast row.first_seen_block (block_in old ++ blocks_seen k ps)

abbrev pub HasNone : PoolKey → List Pool → Option PoolRow → Option PoolRow → Type 0
HasNone k ps old new = All (λ (x : Pool). key_of x ≢ k) ps × (new ≡ old)

-- One more pool in front of a batch.
extend-HasPool :
    (k : PoolKey) (p : Pool) (ps : List Pool) (old new : Option PoolRow)
    → HasPool k ps (if key_of p == k then some (merge_pool old (pool_row_of p)) else old) new
    → HasPool k (p ∷ ps) old new
extend-HasPool k p ps old new (q, row, (before, after, e, same, last), found, tokens, first) =
    let split : IsLastPool k (p ∷ ps) q = (p ∷ before, after, ap (λ xs. p ∷ xs) e, same, last) in
    elim (Bool-cases (key_of p == k)) [
      | inl f ↦ rw f (
        q,
        row,
        split,
        found,
        tokens,
        IsLeast-merge p old row.first_seen_block (blocks_seen k ps) (rw f at first),
      )
      | inr f ↦ rw f (q, row, split, found, tokens, rw f at first)
    ]

extend-HasNone :
    (k : PoolKey) (p : Pool) (ps : List Pool) (old new : Option PoolRow)
    → HasNone k ps (if key_of p == k then some (merge_pool old (pool_row_of p)) else old) new
    → HasNone k (p ∷ ps) old new ⊎ HasPool k (p ∷ ps) old new
extend-HasNone k p ps old new (others, kept) =
    let row = merge_pool old (pool_row_of p) in
    elim (Bool-cases (key_of p == k)) [
      | inr f ↦ inl ((λ same. cc (f, (pair_beq_iff (key_of p) k).1 same), others), rw f at kept)
      | inl f ↦ inr (
        p,
        row,
        ([], ps, refl, (pair_beq_iff (key_of p) k).0 f, others),
        rw f at kept,
        merge_pool-HasTokens p old,
        rw f (
            IsLeast-merge p old row.first_seen_block (blocks_seen k ps) (
              rw (blocks_seen-none k ps others) (inl refl, (leb_ℤ_refl row.first_seen_block, tt)))),
      )
    ]

-- Take a batch of pools, a table and a key. Either no pool of the batch has the key, and the table
-- has for it what it had before; or the table has a row for it, with the tokens, the fee and the
-- spacing of the last pool in the batch that has the key. The row's first block is then one of, and
-- no greater than any of, the first block in the row that was there, if there was one, and the first
-- blocks of the batch's pools with the key.
pub put_pools-columns :
    (ps : List Pool) (k : PoolKey) (t : Dict PoolKey PoolRow)
    → HasNone k ps (Dict.lookup k t) (Dict.lookup k (put_pools ps t))
      ⊎ HasPool k ps (Dict.lookup k t) (Dict.lookup k (put_pools ps t))
unfolding put_pools
put_pools-columns [] k t = inl (tt, refl)
put_pools-columns (p ∷ ps) k t =
    let new = Dict.lookup k (put_pools ps (put_pool p t)) in
    let old = Dict.lookup k t in
    let step = lookup-put_pool p k t in
    elim (put_pools-columns ps k (put_pool p t)) [
      | inl h ↦ extend-HasNone k p ps old new (subst (λ o. HasNone k ps o new) step h)
      | inr h ↦ inr (extend-HasPool k p ps old new (subst (λ o. HasPool k ps o new) step h))
    ]
