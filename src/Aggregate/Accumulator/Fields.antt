-- ===== src/Aggregate/Accumulator/Fields.antt =====
-- The fields of an accumulator behind one event: what a refused swap leaves alone, the window, and
-- the blocks and times seen.
use liquidity_scope.Prelude.{
  ◌≤◌, ◌<◌, ◌≡◌, refl, ◌∙◌, ◌↔◌, inl, inr, true, false, Option, none, some, List, [], ◌∷◌, arith,
  ◌==◌, nat_eq, list_eq, pair_eq, is_ok, Option-cases, max,
}
use liquidity_scope.Prelude.Int.{ℤ}
use liquidity_scope.Text.{Text, codes, to_lower}
use liquidity_scope.Model.{TypedEventRecord, SwapEventData}
use liquidity_scope.Aggregate.Accumulator.{
  Accumulator, apply_amounts, apply_swap, parse_big_int, observe, add_event,
}
use liquidity_scope.Aggregate.Accumulator.Totals.{
  both, credit, swap_of, add_event-credit, add_events,
}

-- The two accumulators agree on everything that a swap adds to.
abbrev pub SameTotals : Accumulator → Accumulator → Type 0
SameTotals a b =
    (a.swap_count ≡ b.swap_count)
    × (a.volume0 ≡ b.volume0)
    × (a.volume1 ≡ b.volume1)
    × (a.fee0 ≡ b.fee0)
    × (a.fee1 ≡ b.fee1)

observe-SameTotals : (r : TypedEventRecord) (a : Accumulator) → SameTotals (observe r a) a
unfolding observe
observe-SameTotals r a = ground arith

observe-window :
    (r : TypedEventRecord) (a : Accumulator) → (observe r a).window_start ≡ a.window_start
unfolding observe
observe-window r a = ground arith

apply_amounts-window :
    (x y : ℤ) (a : Accumulator) → (apply_amounts x y a).window_start ≡ a.window_start
unfolding apply_amounts
apply_amounts-window x y a = ground arith

credit-window : (o : Option (ℤ × ℤ)) (a : Accumulator) → (credit o a).window_start ≡ a.window_start
credit-window none a = refl
credit-window (some (x, y)) a = apply_amounts-window x y a

apply_swap_fails :
    (s : SwapEventData) (a : Accumulator)
    → (is_ok (apply_swap s a).0 ≡ false)
      ↔ (both (parse_big_int s.amount0) (parse_big_int s.amount1) ≡ none)
unfolding apply_swap
apply_swap_fails s a = ground arith

-- The timestamps and blocks that an event may move.
pub record Seen (r : TypedEventRecord) (a b : Accumulator) : Type 0 where
  pub last : b.last_ts ≡ max a.last_ts r.timestamp
  pub first_le : 0 < r.block_number → b.first_block ≤ r.block_number
  pub first_kept : 0 < a.first_block → b.first_block ≤ a.first_block

observe-Seen : (r : TypedEventRecord) (a : Accumulator) → Seen r a (observe r a)
unfolding observe
observe-Seen r a = ground arith

module _ (unmarshal_swap : Text → Option SwapEventData) where
  pub add_event-window :
      (r : TypedEventRecord) (a : Accumulator)
      → (add_event unmarshal_swap r a).1.window_start ≡ a.window_start
  add_event-window r a =
      rw (add_event-credit unmarshal_swap r a)
        (credit-window (swap_of unmarshal_swap r) (observe r a) ∙ observe-window r a)

  pub add_events-window :
      (rs : List TypedEventRecord) (a : Accumulator)
      → (add_events unmarshal_swap rs a).window_start ≡ a.window_start
  add_events-window [] a = refl
  add_events-window (r ∷ rs) a =
      add_events-window rs (add_event unmarshal_swap r a).1 ∙ add_event-window r a

  -- `AddEvent` fails exactly on an event that is named a swap and has no two amounts to read.
  pub add_event-fails_iff :
      (r : TypedEventRecord) (a : Accumulator)
      → (is_ok (add_event unmarshal_swap r a).0 ≡ false)
        ↔ (((to_lower r.event_name == codes "swap") ≡ true) × (swap_of unmarshal_swap r ≡ none))
  unfolding add_event swap_of
  add_event-fails_iff r a = elim (Option-cases (unmarshal_swap r.decoded)) [
    | inl e ↦ ground arith
    | inr (s, e) ↦ ground (arith, apply_swap_fails s (observe r a))
  ]

  -- An event that `AddEvent` refuses changes no count, volume or fee.
  pub add_event-refused :
      (r : TypedEventRecord) (a : Accumulator)
      → is_ok (add_event unmarshal_swap r a).0 ≡ false
      → SameTotals (add_event unmarshal_swap r a).1 a
  add_event-refused r a failed =
      let nothing : (add_event unmarshal_swap r a).1 ≡ observe r a =
        rw ((add_event-fails_iff r a).0 failed).1 at (add_event-credit unmarshal_swap r a) in
      rw nothing (observe-SameTotals r a)
