-- ===== src/Aggregate/Accumulator/Decoded.antt =====
-- From the decode command to the aggregator: a swap that `Decode` returned, written out and read again,
-- in `AddEvent`.
use liquidity_scope.Prelude.{
  ◌≡◌, refl, inl, inr, Bool, false, Option, some, List, ◌∷◌, nat_eq, list_eq, pair_eq, ok, is_empty,
  List-cases,
}
use liquidity_scope.Prelude.Int.{ℤ, pos, negsuc}
use liquidity_scope.Text.{Text, codes, to_lower}
use liquidity_scope.Text.Decimal.{format_int, format_nat}
use liquidity_scope.Text.Decimal.RoundTrip.{set_string-format_int, format_nat-ne-nil}
use liquidity_scope.Chain.{Node}
use liquidity_scope.Model.{LogRecord, TypedEvent, TypedEventRecord, SwapEventData, swap}
use liquidity_scope.Dex.Abi.{swap_event}
use liquidity_scope.Dex.Values.{Value, as_big_int}
use liquidity_scope.Dex.Library.{Ethereum}
use liquidity_scope.Dex.PoolMeta.{DecodeState}
use liquidity_scope.Dex.Events.{unpack_non_indexed}
use liquidity_scope.Dex.Events.Amounts.{Shows, decode_swap-Shows}
use liquidity_scope.Dex.Decoder.{Decoder, decode}
use liquidity_scope.Dex.Decoder.Accepted.{decode-Made, decode_event-Fits}
use liquidity_scope.Aggregate.Accumulator.{
  Accumulator, add_event, apply_swap, apply_amounts, observe, parse_big_int,
}

format_int-ne-nil : (z : ℤ) → is_empty (format_int z) ≡ false
unfolding format_int
format_int-ne-nil (pos n) = elim (List-cases (format_nat n)) [
  | inl e ↦ absurd (format_nat-ne-nil n e)
  | inr (c, s, e) ↦ rw e
]
format_int-ne-nil (negsuc n) = refl

parse_big_int-format_int : (z : ℤ) → parse_big_int (format_int z) ≡ ok z
unfolding parse_big_int
parse_big_int-format_int z = rw (format_int-ne-nil z, set_string-format_int z)

module _ (eth : Ethereum) where
  apply_swap-parsed :
      (e : SwapEventData) (x y : ℤ) (a : Accumulator)
      → parse_big_int e.amount0 ≡ ok x
      → parse_big_int e.amount1 ≡ ok y
      → apply_swap e a ≡ (ok tt, apply_amounts x y a)
  unfolding apply_swap
  apply_swap-parsed e x y a h k = rw (h, k, apply_swap)

  shown-added :
      (unmarshal_swap : Text → Option SwapEventData) (payload : Text) (e : SwapEventData)
      (r : TypedEventRecord) (a : Accumulator)
      → (shown : Shows eth payload e) → to_lower r.event_name ≡ codes "swap"
      → unmarshal_swap r.decoded ≡ some e
      → add_event unmarshal_swap r a
        ≡ (ok tt, apply_amounts shown.value0 shown.value1 (observe r a))
  unfolding add_event apply_swap
  shown-added unmarshal_swap payload e r a shown named read =
      rw (named, read)
        (apply_swap-parsed e shown.value0 shown.value1 (observe r a)
          (rw shown.shows0 (parse_big_int-format_int shown.value0))
          (rw shown.shows1 (parse_big_int-format_int shown.value1)))

  -- Take an event that `Decode` returned and whose data is a swap, a record with the same event
  -- name, and JSON that gives the swap's data back. Then `AddEvent` does not fail on the record: it
  -- adds exactly the two amounts that the data of the log unpacks to.
  pub decode-add_event :
      (node : Node) (live : Bool) (d : Decoder) (log : LogRecord) (s : DecodeState)
      (event : TypedEvent) (e : SwapEventData) (unmarshal_swap : Text → Option SwapEventData)
      (r : TypedEventRecord) (a : Accumulator)
      → (decode eth node live d log s).0 ≡ ok event
      → event.decoded ≡ swap e
      → r.event_name ≡ event.event_name
      → unmarshal_swap r.decoded ≡ some e
      → (first : Value) × (second : Value) × (rest : List Value) × (x : ℤ) × (y : ℤ)
        × (unpack_non_indexed eth swap_event log.payload ≡ ok (first ∷ second ∷ rest))
        × (as_big_int first ≡ ok x)
        × (as_big_int second ≡ ok y)
        × (add_event unmarshal_swap r a ≡ (ok tt, apply_amounts x y (observe r a)))
  decode-add_event node live d log s event e unmarshal_swap r a h swapped named read =
      let made = decode-Made eth node live d log s event h in
      let (name, k) =
        decode_event-Fits eth event.event_name log (swap e) (rw swapped at made.payload) in
      let shown = decode_swap-Shows eth log e k in
      (
        shown.first,
        shown.second,
        shown.rest,
        shown.value0,
        shown.value1,
        shown.unpacked,
        shown.is_value0,
        shown.is_value1,
        shown-added unmarshal_swap log.payload e r a shown
            (rw (named, name) (unfold to_lower in refl)) read,
      )
