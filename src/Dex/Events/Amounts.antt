-- ===== src/Dex/Events/Amounts.antt =====
-- The amounts that `decodeSwap` prints, against the values that the log's data holds.
use liquidity_scope.Prelude.{
  ℕ, ◌≡◌, sym, ap, List, [], ◌∷◌, nat_eq, list_eq, pair_eq, ok, bind-eq-ok, ok_inj,
}
use liquidity_scope.Prelude.Int.{ℤ}
use liquidity_scope.Text.Decimal.{format_int}
use liquidity_scope.Chain.{Address}
use liquidity_scope.Model.{LogRecord, SwapEventData}
use liquidity_scope.Dex.Abi.{swap_event}
use liquidity_scope.Dex.Values.{Value, as_big_int, int24_from_big}
use liquidity_scope.Dex.Library.{Ethereum}
use liquidity_scope.Dex.Events.{
  decode_swap, event_topics, two_addresses, unpack_non_indexed, swap_values,
}

-- The event shows the two amounts that the data begins with, and its tick, which the data ends with.
pub record Shows (eth : Ethereum) (payload : List ℕ) (e : SwapEventData) : Type 0 where
  pub first : Value
  pub second : Value
  pub rest : List Value
  pub unpacked : unpack_non_indexed eth swap_event payload ≡ ok (first ∷ second ∷ rest)
  pub value0 : ℤ
  pub value1 : ℤ
  pub is_value0 : as_big_int first ≡ ok value0
  pub is_value1 : as_big_int second ≡ ok value1
  pub shows0 : e.amount0 ≡ format_int value0
  pub shows1 : e.amount1 ≡ format_int value1

module _ (eth : Ethereum) where
  swap_values-Shows :
      (payload : List ℕ) (who : Address × Address) (values : List Value) (e : SwapEventData)
      → unpack_non_indexed eth swap_event payload ≡ ok values
      → swap_values eth who values ≡ ok e
      → Shows eth payload e
  swap_values-Shows payload who (v0 ∷ v1 ∷ v2 ∷ v3 ∷ v4 ∷ []) e u h =
      let (x0, h0, k0) = bind-eq-ok (as_big_int v0) _ h in
      let (x1, h1, k1) = bind-eq-ok (as_big_int v1) _ k0 in
      let (x2, h2, k2) = bind-eq-ok (as_big_int v2) _ k1 in
      let (x3, h3, k3) = bind-eq-ok (as_big_int v3) _ k2 in
      let (x4, h4, k4) = bind-eq-ok (as_big_int v4) _ k3 in
      let (x5, h5, k5) = bind-eq-ok (int24_from_big x4) _ k4 in
      record {
        first = v0;
        second = v1;
        rest = v2 ∷ v3 ∷ v4 ∷ [];
        unpacked = u;
        value0 = x0;
        value1 = x1;
        is_value0 = h0;
        is_value1 = h1;
        shows0 = ap (λ (e : SwapEventData). e.amount0) (sym (ok_inj k5));
        shows1 = ap (λ (e : SwapEventData). e.amount1) (sym (ok_inj k5));
      }
  swap_values-Shows payload who [] e u h = absurd (cc h)
  swap_values-Shows payload who (v0 ∷ []) e u h = absurd (cc h)
  swap_values-Shows payload who (v0 ∷ v1 ∷ []) e u h = absurd (cc h)
  swap_values-Shows payload who (v0 ∷ v1 ∷ v2 ∷ []) e u h = absurd (cc h)
  swap_values-Shows payload who (v0 ∷ v1 ∷ v2 ∷ v3 ∷ []) e u h = absurd (cc h)
  swap_values-Shows payload who (v0 ∷ v1 ∷ v2 ∷ v3 ∷ v4 ∷ v5 ∷ values) e u h = absurd (cc h)

  pub decode_swap-Shows :
      (log : LogRecord) (e : SwapEventData) → decode_swap eth log ≡ ok e → Shows eth log.payload e
  unfolding decode_swap
  decode_swap-Shows log e h =
      let (topics, h0, k0) = bind-eq-ok (event_topics eth swap_event log.topics) _ h in
      let (indexed, h1, k1) = bind-eq-ok (two_addresses eth topics) _ k0 in
      let (values, h2, k2) = bind-eq-ok (unpack_non_indexed eth swap_event log.payload) _ k1 in
      swap_values-Shows log.payload indexed values e h2 k2
