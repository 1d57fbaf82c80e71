-- ===== src/Dex/Events.antt =====
-- The decoders of the four events in internal/dex/v3_pool_decoder.go: the topics and the data of a
-- record become the fields of the event.
pub mod Amounts
pub mod Typed
use liquidity_scope.Prelude.{
  ℕ, zero, suc, ◌+◌, ◌-◌, ◌*◌, ◌/◌, ◌%◌, ◌^◌, ◌≤◌, ◌<◌, ◌≡◌, refl, sym, ap, ◌∙◌, subst, ◌≢◌, ◌↔◌,
  ◌⊎◌, inl, inr, Bool, true, false, not, ◌&&◌, ◌||◌, Option, none, some, List, [], ◌∷◌, ◌++◌, map,
  append-nil, append_assoc, arith, ltb, leb, ◌==◌, Eq, nat_eq, list_eq, pair_eq, beq_refl,
  if◌then◌else◌, Result, ok, err, is_ok, Bool-cases, Option-cases, length, is_empty, All, replicate,
  ne→beq_false, le→leb, lt→leb_false, le→ltb_false, ◌>>=◌,
}
use liquidity_scope.Prelude.Int.{ℤ}
use liquidity_scope.Errors.{Error, topic_count, bad_topic, topic_length, bad_data, value_count}
use liquidity_scope.Text.{Text}
use liquidity_scope.Text.Decimal.{format_int}
use liquidity_scope.Model.{LogRecord, SwapEventData, MintEventData, BurnEventData, CollectEventData}
use liquidity_scope.Chain.{Address, Hash}
use liquidity_scope.Dex.Abi.{
  Argument, Event, swap_event, mint_event, burn_event, collect_event, indexed_arguments,
  non_indexed,
}
use liquidity_scope.Dex.Values.{Value, as_address, as_big_int, int24_from_big}
use liquidity_scope.Dex.Library.{Ethereum, Topic, addr, int}

module _ (eth : Ethereum) where
  -- `parseTopicHashes`
  unfoldable pub parse_topic_hashes : List Text → Result Error (List Hash)
  parse_topic_hashes [] = ok []
  parse_topic_hashes (topic ∷ topics) =
      let rest = parse_topic_hashes topics in
      elim (eth.hex_decode topic) [
        | none ↦ err bad_topic
        | some bytes ↦
            if ltb 32 (length bytes)
            then err (topic_length (length bytes))
            else (rest >>= λ hashes. ok (eth.bytes_to_hash bytes ∷ hashes))
      ]

  abbrev tail : List Text → List Text
  tail [] = []
  tail (topic ∷ topics) = topics

  -- `parseIndexedTopics`
  unfoldable pub parse_indexed_topics : Event → List Text → Result Error (List Hash)
  unfolding parse_topic_hashes indexed_arguments
  parse_indexed_topics event topics =
      let expected = length (indexed_arguments event.inputs) + 1 in
      if length topics == expected
      then parse_topic_hashes (tail topics)
      else err (topic_count expected (length topics))

  -- `unpackNonIndexed`
  unfoldable pub unpack_non_indexed : Event → Text → Result Error (List Value)
  unfolding non_indexed
  unpack_non_indexed event payload = elim (eth.hex_decode payload) [
    | none ↦ err bad_data
    | some bytes ↦ elim (eth.unpack_arguments (non_indexed event.inputs) bytes) [
      | none ↦ err bad_data
      | some values ↦ ok values
    ]
  ]

  -- The two steps that each decoder makes first, and the third.
  unfoldable pub event_topics : Event → List Text → Result Error (List Topic)
  unfolding parse_indexed_topics
  event_topics event topics = do
    hashes ← parse_indexed_topics event topics
    elim (eth.parse_topics (indexed_arguments event.inputs) hashes) [
      | none ↦ err bad_topic
      | some indexed ↦ ok indexed
    ]

  -- The struct of the indexed arguments of a swap, and that of the other events. `ParseTopics`
  -- refuses values that do not fit the fields.
  abbrev pub two_addresses : List Topic → Result Error (Address × Address)
  two_addresses (addr sender ∷ addr recipient ∷ []) = ok (sender, recipient)
  two_addresses _ = err bad_topic

  abbrev pub owner_and_ticks : List Topic → Result Error (Address × ℤ × ℤ)
  owner_and_ticks (addr owner ∷ int lower ∷ int upper ∷ []) = ok (owner, lower, upper)
  owner_and_ticks _ = err bad_topic

  abbrev pub swap_values : Address × Address → List Value → Result Error SwapEventData
  swap_values (sender, recipient) (v0 ∷ v1 ∷ v2 ∷ v3 ∷ v4 ∷ []) = do
    amount0 ← as_big_int v0
    amount1 ← as_big_int v1
    sqrt_price ← as_big_int v2
    liquidity ← as_big_int v3
    tick_int ← as_big_int v4
    tick ← int24_from_big tick_int
    ok (record {
      sender = eth.address_hex sender;
      recipient = eth.address_hex recipient;
      amount0 = format_int amount0;
      amount1 = format_int amount1;
      sqrt_price_x96 = format_int sqrt_price;
      liquidity = format_int liquidity;
      tick = tick;
    })
  swap_values _ values = err (value_count (length values))

  -- `decodeSwap`
  unfoldable pub decode_swap : LogRecord → Result Error SwapEventData
  unfolding event_topics unpack_non_indexed
  decode_swap log = do
    topics ← event_topics swap_event log.topics
    indexed ← two_addresses topics
    values ← unpack_non_indexed swap_event log.payload
    swap_values indexed values

  abbrev pub mint_values : Address × ℤ × ℤ → List Value → Result Error MintEventData
  mint_values (owner, lower, upper) (v0 ∷ v1 ∷ v2 ∷ v3 ∷ []) = do
    sender ← as_address v0
    amount ← as_big_int v1
    amount0 ← as_big_int v2
    amount1 ← as_big_int v3
    tick_lower ← int24_from_big lower
    tick_upper ← int24_from_big upper
    ok (record {
      sender = eth.address_hex sender;
      owner = eth.address_hex owner;
      tick_lower = tick_lower;
      tick_upper = tick_upper;
      amount = format_int amount;
      amount0 = format_int amount0;
      amount1 = format_int amount1;
    })
  mint_values _ values = err (value_count (length values))

  -- `decodeMint`
  unfoldable pub decode_mint : LogRecord → Result Error MintEventData
  unfolding event_topics unpack_non_indexed
  decode_mint log = do
    topics ← event_topics mint_event log.topics
    indexed ← owner_and_ticks topics
    values ← unpack_non_indexed mint_event log.payload
    mint_values indexed values

  abbrev pub burn_values : Address × ℤ × ℤ → List Value → Result Error BurnEventData
  burn_values (owner, lower, upper) (v0 ∷ v1 ∷ v2 ∷ []) = do
    amount ← as_big_int v0
    amount0 ← as_big_int v1
    amount1 ← as_big_int v2
    tick_lower ← int24_from_big lower
    tick_upper ← int24_from_big upper
    ok (record {
      owner = eth.address_hex owner;
      tick_lower = tick_lower;
      tick_upper = tick_upper;
      amount = format_int amount;
      amount0 = format_int amount0;
      amount1 = format_int amount1;
    })
  burn_values _ values = err (value_count (length values))

  -- `decodeBurn`
  unfoldable pub decode_burn : LogRecord → Result Error BurnEventData
  unfolding event_topics unpack_non_indexed
  decode_burn log = do
    topics ← event_topics burn_event log.topics
    indexed ← owner_and_ticks topics
    values ← unpack_non_indexed burn_event log.payload
    burn_values indexed values

  abbrev pub collect_values : Address × ℤ × ℤ → List Value → Result Error CollectEventData
  collect_values (owner, lower, upper) (v0 ∷ v1 ∷ v2 ∷ []) = do
    recipient ← as_address v0
    amount0 ← as_big_int v1
    amount1 ← as_big_int v2
    tick_lower ← int24_from_big lower
    tick_upper ← int24_from_big upper
    ok (record {
      owner = eth.address_hex owner;
      recipient = eth.address_hex recipient;
      tick_lower = tick_lower;
      tick_upper = tick_upper;
      amount0 = format_int amount0;
      amount1 = format_int amount1;
    })
  collect_values _ values = err (value_count (length values))

  -- `decodeCollect`
  unfoldable pub decode_collect : LogRecord → Result Error CollectEventData
  unfolding event_topics unpack_non_indexed
  decode_collect log = do
    topics ← event_topics collect_event log.topics
    indexed ← owner_and_ticks topics
    values ← unpack_non_indexed collect_event log.payload
    collect_values indexed values
