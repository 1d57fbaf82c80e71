-- ===== src/Dex/Decoder.antt =====
-- `V3PoolDecoder` of internal/dex/v3_pool_decoder.go. The map of topics that the configuration gives
-- is a list here, in the order in which Go ranges over it.
pub mod Accepted
pub mod Topics
pub mod Refusals
use liquidity_scope.Prelude.{
  ℕ, zero, suc, ◌+◌, ◌-◌, ◌*◌, ◌/◌, ◌%◌, ◌^◌, ◌≤◌, ◌<◌, ◌≡◌, refl, sym, ap, ◌∙◌, subst, ◌≢◌, ◌↔◌,
  ◌⊎◌, inl, inr, Bool, true, false, not, ◌&&◌, ◌||◌, Option, none, some, List, [], ◌∷◌, ◌++◌, map,
  append-nil, append_assoc, arith, ltb, leb, ◌==◌, Eq, nat_eq, list_eq, pair_eq, beq_refl,
  if◌then◌else◌, Result, ok, err, is_ok, Bool-cases, Option-cases, length, is_empty, All, replicate,
  ne→beq_false, le→leb, lt→leb_false, le→ltb_false, and_then, ◌>>=◌,
}
use liquidity_scope.Prelude.Dict
use liquidity_scope.Prelude.Dict.{Dict}
use liquidity_scope.Errors.{
  Error, missing_topics, unsupported_topic0, invalid_pool, unsupported_name, unsupported_event,
  parse_abi,
}
use liquidity_scope.Text.{Text, codes, to_lower, trim_space}
use liquidity_scope.Model.{LogRecord, TypedEvent, PoolMeta, EventData, swap, mint, burn, collect}
use liquidity_scope.Chain.{Node}
use liquidity_scope.Dex.Abi.{Event, v3_pool, swap_event, mint_event, burn_event, collect_event}
use liquidity_scope.Dex.Library.{Ethereum}
use liquidity_scope.Dex.Events.{decode_swap, decode_mint, decode_burn, decode_collect}
use liquidity_scope.Dex.PoolMeta.{DecodeState, get_pool_meta}

-- `normalizeEventName`; empty where there is no such event
unfoldable pub normalize_event_name : Text → Text
normalize_event_name name =
    let key = to_lower (trim_space name) in
    if key == codes "swap"
    then codes "Swap"
    else if key == codes "mint"
    then codes "Mint"
    else if key == codes "burn"
    then codes "Burn"
    else if key == codes "collect"
    then codes "Collect"
    else []

-- `V3PoolDecoder`, whose ABI is always the one of internal/dex/abi.go
pub record Decoder : Type 0 where
  pub topic_to_name : Dict Text Text

-- The loop over the topics of the configuration.
unfoldable pub add_topics : List (Text × Text) → Dict Text Text → Result Error (Dict Text Text)
add_topics [] names = ok names
add_topics ((topic0, name) ∷ topics) names =
    let normal = normalize_event_name name in
    let rest =
      add_topics topics
        (if is_empty topic0 then names else Dict.insert (to_lower topic0) normal names) in
    if is_empty normal then err unsupported_name else rest

-- `buildTypedEvent`
unfoldable pub build_typed_event : LogRecord → Text → Text → EventData → PoolMeta → TypedEvent
build_typed_event log topic0 name decoded meta = record {
  chain_id = log.chain_id;
  block_number = log.block_number;
  block_hash = log.block_hash;
  tx_hash = log.tx_hash;
  log_index = log.log_index;
  address = log.address;
  event_name = name;
  timestamp = log.timestamp;
  decoded = decoded;
  pool_meta = meta;
  raw = some (record { topic0 = topic0; payload = log.payload });
}

module _ (eth : Ethereum) where
  -- The key of an event of the ABI.
  unfoldable pub event_key : Event → Text
  event_key event = to_lower (eth.hash_hex (eth.event_id event))

  unfoldable pub default_topics : Dict Text Text
  unfolding event_key
  default_topics = Dict.insert (event_key collect_event) (codes "Collect") (
      Dict.insert (event_key burn_event) (codes "Burn") (
        Dict.insert (event_key mint_event) (codes "Mint")
          (Dict.insert (event_key swap_event) (codes "Swap") [])))

  -- `NewV3PoolDecoder`
  unfoldable pub new_decoder : List (Text × Text) → Result Error Decoder
  unfolding add_topics
  new_decoder topic0_map =
      if not (eth.parses v3_pool)
      then err parse_abi
      else (add_topics topic0_map default_topics >>= λ names. ok (record { topic_to_name = names }))

  -- `CanDecode`
  unfoldable pub can_decode : Decoder → Text → Bool
  can_decode d topic0 =
      if is_empty topic0
      then false
      else (elim (Dict.lookup (to_lower topic0) d.topic_to_name) [ none ↦ false | some _ ↦ true ])

  -- The switch of `Decode` over the event's name.
  unfoldable pub decode_event : Text → LogRecord → Result Error EventData
  decode_event name log =
      if name == codes "Swap"
      then (decode_swap eth log >>= λ e. ok (swap e))
      else if name == codes "Mint"
      then (decode_mint eth log >>= λ e. ok (mint e))
      else if name == codes "Burn"
      then (decode_burn eth log >>= λ e. ok (burn e))
      else if name == codes "Collect"
      then (decode_collect eth log >>= λ e. ok (collect e))
      else err unsupported_event

  module _ (node : Node) (live : Bool) (d : Decoder) where
    -- What `Decode` does with a record whose first topic is known under this name.
    unfoldable pub decode_named :
        Text → Text → LogRecord → DecodeState → Result Error TypedEvent × DecodeState
    decode_named topic0 name log s =
        if not (eth.is_hex_address log.address)
        then (err invalid_pool, s)
        else (let (r, s') =
              get_pool_meta eth node live (eth.hex_to_address log.address) log.block_number s in
            and_then r s' λ meta s'. (
              decode_event name log >>= λ decoded.
                  ok (build_typed_event log topic0 name decoded meta),
              s',
            ))

    -- `Decode` of a record with these topics
    unfoldable pub decode_topics :
        List Text → LogRecord → DecodeState → Result Error TypedEvent × DecodeState
    unfolding decode_named
    decode_topics [] log s = (err missing_topics, s)
    decode_topics (topic0 ∷ topics) log s = elim (Dict.lookup (to_lower topic0) d.topic_to_name) [
      | none ↦ (err unsupported_topic0, s)
      | some name ↦ decode_named topic0 name log s
    ]

    -- `Decode`
    unfoldable pub decode : LogRecord → DecodeState → Result Error TypedEvent × DecodeState
    unfolding decode_topics
    decode log s = decode_topics log.topics log s
