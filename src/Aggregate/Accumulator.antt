-- ===== src/Aggregate/Accumulator.antt =====
-- internal/aggregate/accumulator.go: the totals of one pool in one window. The `*big.Int` fields
-- are never nil there. `json.Unmarshal` of a swap's payload is a parameter.
pub mod Totals
pub mod Fields
pub mod Decoded
use liquidity_scope.Prelude.{
  ℕ, zero, suc, ◌+◌, ◌-◌, ◌*◌, ◌/◌, ◌%◌, ◌^◌, ◌≤◌, ◌<◌, ◌≡◌, refl, sym, ap, ◌∙◌, subst, ◌≢◌, ◌↔◌,
  ◌⊎◌, inl, inr, Bool, true, false, not, ◌&&◌, ◌||◌, Option, none, some, List, [], ◌∷◌, ◌++◌, map,
  append-nil, append_assoc, arith, ltb, leb, ◌==◌, Eq, nat_eq, list_eq, pair_eq, beq_refl,
  if◌then◌else◌, Result, ok, err, is_ok, Bool-cases, Option-cases, length, is_empty, All, replicate,
  ne→beq_false, le→leb, lt→leb_false, le→ltb_false,
}
use liquidity_scope.Prelude.Int.{ℤ, pos, abs, ◌+ℤ◌, is_negative, is_positive}
use liquidity_scope.Errors.{Error, bad_swap, invalid_int}
use liquidity_scope.Text.{Text, codes, to_lower}
use liquidity_scope.Text.Decimal.{set_string}
use liquidity_scope.Model.{TypedEventRecord, SwapEventData, PoolMeta}

pub record Accumulator : Type 0 where
  pub chain_id : ℕ
  pub pool_address : Text
  pub pool_meta : PoolMeta
  pub window_start : ℕ
  pub window_end : ℕ
  pub swap_count : ℕ
  pub volume0 : ℤ
  pub volume1 : ℤ
  pub fee0 : ℤ
  pub fee1 : ℤ
  pub last_block : ℕ
  pub last_ts : ℕ
  pub first_block : ℕ

-- `NewAccumulator`
unfoldable pub new_accumulator : TypedEventRecord → ℕ → ℕ → Accumulator
new_accumulator r window_start window_end = record {
  chain_id = r.chain_id;
  pool_address = r.address;
  pool_meta = r.pool_meta;
  window_start = window_start;
  window_end = window_end;
  swap_count = 0;
  volume0 = pos 0;
  volume1 = pos 0;
  fee0 = pos 0;
  fee1 = pos 0;
  last_block = r.block_number;
  last_ts = r.timestamp;
  first_block = r.block_number;
}

-- `parseBigInt`
unfoldable pub parse_big_int : Text → Result Error ℤ
parse_big_int value =
    if is_empty value
    then ok (pos 0)
    else (elim (set_string value) [ none ↦ err invalid_int | some parsed ↦ ok parsed ])

-- `absAdd`
unfoldable pub abs_add : ℤ → ℤ → ℤ
abs_add target value = target +ℤ pos (abs value)

-- `feeFromAmount`: the quotient of two numbers that are not negative.
unfoldable pub fee_from_amount : ℤ → ℕ → ℤ
fee_from_amount amount_in fee_rate = pos (abs amount_in * fee_rate / 1_000_000)

-- `SwapCount++`, in uint64
count_swap : Accumulator → Accumulator
count_swap a = record a { swap_count = (a.swap_count + 1) % 2 ^ 64 }

-- the two calls of `absAdd`
add_volumes : ℤ → ℤ → Accumulator → Accumulator
unfolding abs_add
add_volumes amount0 amount1 a = record a {
  volume0 = abs_add a.volume0 amount0;
  volume1 = abs_add a.volume1 amount1;
}

-- the branch on the signs of the amounts
add_fees : ℤ → ℤ → Accumulator → Accumulator
unfolding fee_from_amount
add_fees amount0 amount1 a =
    if is_negative amount0 && is_positive amount1
    then record a { fee1 = a.fee1 +ℤ fee_from_amount amount1 a.pool_meta.fee }
    else if is_negative amount1 && is_positive amount0
    then record a { fee0 = a.fee0 +ℤ fee_from_amount amount0 a.pool_meta.fee }
    else a

-- What `applySwap` does once both amounts are parsed.
unfoldable pub apply_amounts : ℤ → ℤ → Accumulator → Accumulator
unfolding add_volumes add_fees count_swap
apply_amounts amount0 amount1 a =
    let a' = add_volumes amount0 amount1 a in
    if a'.pool_meta.fee == 0 then count_swap a' else count_swap (add_fees amount0 amount1 a')

-- `applySwap`: the accumulator is written only when both amounts are numbers.
unfoldable pub apply_swap : SwapEventData → Accumulator → Result Error Unit × Accumulator
apply_swap swap a = elim (parse_big_int swap.amount0) [
  | err e ↦ (err e, a)
  | ok amount0 ↦ elim (parse_big_int swap.amount1) [
    | err e ↦ (err e, a)
    | ok amount1 ↦ (ok tt, apply_amounts amount0 amount1 a)
  ]
]

-- The block and time fields, which `AddEvent` writes first and for every event.
unfoldable pub observe : TypedEventRecord → Accumulator → Accumulator
observe r a =
    let a' =
      if leb a.last_ts r.timestamp
      then record a { last_ts = r.timestamp; last_block = r.block_number }
      else a in
    if a'.first_block == 0 || ltb r.block_number a'.first_block
    then record a' { first_block = r.block_number }
    else a'

module _ (unmarshal_swap : Text → Option SwapEventData) where
  -- `AddEvent`
  unfoldable pub add_event : TypedEventRecord → Accumulator → Result Error Unit × Accumulator
  add_event r a =
      let a' = observe r a in
      if to_lower r.event_name == codes "swap"
      then (elim (unmarshal_swap r.decoded) [
        | none ↦ (err bad_swap, a')
        | some swap ↦ apply_swap swap a'
      ])
      else (ok tt, a')
