-- ===== src/Dex/Decoder/Accepted.antt =====
-- What an event that `Decode` returns was made of.
use liquidity_scope.Prelude.{
  ◌≡◌, refl, ap, subst, inl, inr, Bool, some, List, [], ◌∷◌, ◌==◌, nat_eq, list_eq, pair_eq, ok,
  Bool-cases, Option-cases, beq→eq, bind-eq-ok, and_then-eq-ok, ok_inj,
}
use liquidity_scope.Text.{Text, codes, to_lower}
use liquidity_scope.Prelude.Dict
use liquidity_scope.Model.{LogRecord, TypedEvent, EventData, PoolMeta, swap, mint, burn, collect}
use liquidity_scope.Chain.{Node}
use liquidity_scope.Dex.Library.{Ethereum}
use liquidity_scope.Dex.Events.{decode_swap, decode_mint, decode_burn, decode_collect}
use liquidity_scope.Dex.PoolMeta.{DecodeState, get_pool_meta}
use liquidity_scope.Dex.Decoder.{
  Decoder, decode, decode_named, decode_topics, decode_event, build_typed_event,
}

-- The record gave the event's data under the event's name, and the pool's metadata was had.
pub record Made (eth : Ethereum) (node : Node) (live : Bool) (d : Decoder) (log : LogRecord)
    (s s' : DecodeState) (event : TypedEvent) : Type 0 where
  pub known :
      (topic0 : Text) × (topics : List Text) × (log.topics ≡ topic0 ∷ topics)
      × (Dict.lookup (to_lower topic0) d.topic_to_name ≡ some event.event_name)
  pub payload : decode_event eth event.event_name log ≡ ok event.decoded
  pub place : event.address ≡ log.address
  pub metadata :
      get_pool_meta eth node live (eth.hex_to_address log.address) log.block_number s
      ≡ (ok event.pool_meta, s')

module _ (eth : Ethereum) (node : Node) (live : Bool) (d : Decoder) where
  build-Made :
      (topic0 : Text) (topics : List Text) (name : Text) (log : LogRecord) (s s' : DecodeState)
      (decoded : EventData) (meta : PoolMeta)
      → log.topics ≡ topic0 ∷ topics
      → Dict.lookup (to_lower topic0) d.topic_to_name ≡ some name
      → get_pool_meta eth node live (eth.hex_to_address log.address) log.block_number s
        ≡ (ok meta, s')
      → decode_event eth name log ≡ ok decoded
      → Made eth node live d log s s' (build_typed_event log topic0 name decoded meta)
  unfolding build_typed_event
  build-Made topic0 topics name log s s' decoded meta e f g m = record {
    known = (topic0, topics, e, f);
    payload = m;
    place = refl;
    metadata = g;
  }

  decode_named-Made :
      (topic0 : Text) (topics : List Text) (name : Text) (log : LogRecord) (s : DecodeState)
      (event : TypedEvent)
      → log.topics ≡ topic0 ∷ topics
      → Dict.lookup (to_lower topic0) d.topic_to_name ≡ some name
      → (decode_named eth node live d topic0 name log s).0 ≡ ok event
      → Made eth node live d log s (decode_named eth node live d topic0 name log s).1 event
  unfolding decode_named
  decode_named-Made topic0 topics name log s event e f h =
      elim (Bool-cases (eth.is_hex_address log.address)) [
        | inr bad ↦ absurd (cc (rw bad at h))
        | inl good ↦
            let (r, s') =
              get_pool_meta eth node live (eth.hex_to_address log.address) log.block_number s in
            let (meta, g, k) = and_then-eq-ok r s' _ (rw good at h) in
            let (decoded, m, n) =
              bind-eq-ok (decode_event eth name log) _ (rw k at (rw good at h)) in
            rw (good, k)
              (subst (Made eth node live d log s s') (ok_inj n)
                (build-Made topic0 topics name log s s' decoded meta e f (ap (λ x. (x, s')) g) m))
      ]

  decode_topics-Made :
      (topics : List Text) (log : LogRecord) (s : DecodeState) (event : TypedEvent)
      → log.topics ≡ topics
      → (decode_topics eth node live d topics log s).0 ≡ ok event
      → Made eth node live d log s (decode_topics eth node live d topics log s).1 event
  unfolding decode_topics
  decode_topics-Made [] log s event e h = cc
  decode_topics-Made (topic0 ∷ topics) log s event e h =
      elim (Option-cases (Dict.lookup (to_lower topic0) d.topic_to_name)) [
        | inl f ↦ absurd (cc (rw (f, decode_topics) at h))
        | inr (name, f) ↦
            rw (f, decode_topics)
              (decode_named-Made topic0 topics name log s event e f (rw (f, decode_topics) at h))
      ]

  -- An event that `Decode` returns comes of a record whose first topic is known; it has the name of
  -- that topic, the record's address, what the decoder of that name makes of the record, and the
  -- metadata that `getPoolMeta` has for the pool.
  pub decode-Made :
      (log : LogRecord) (s : DecodeState) (event : TypedEvent)
      → (decode eth node live d log s).0 ≡ ok event
      → Made eth node live d log s (decode eth node live d log s).1 event
  unfolding decode
  decode-Made log s event h = decode_topics-Made log.topics log s event refl h

module _ (eth : Ethereum) where
  -- The data is what the decoder of this name makes of the record.
  abbrev pub Fits : Text → LogRecord → EventData → Type 0
  Fits name log (swap e) = (name ≡ codes "Swap") × (decode_swap eth log ≡ ok e)
  Fits name log (mint e) = (name ≡ codes "Mint") × (decode_mint eth log ≡ ok e)
  Fits name log (burn e) = (name ≡ codes "Burn") × (decode_burn eth log ≡ ok e)
  Fits name log (collect e) = (name ≡ codes "Collect") × (decode_collect eth log ≡ ok e)

  pub decode_event-Fits :
      (name : Text) (log : LogRecord) (decoded : EventData)
      → decode_event eth name log ≡ ok decoded
      → Fits name log decoded
  unfolding decode_event
  decode_event-Fits name log decoded h = elim (Bool-cases (name == codes "Swap")) [
    | inl e ↦
        let (_, k, m) =
          bind-eq-ok (decode_swap eth log) (λ x. ok (swap x)) (rw (e, decode_event) at h) in
        subst (Fits name log) (ok_inj m) (beq→eq name (codes "Swap") e, k)
    | inr e ↦ elim (Bool-cases (name == codes "Mint")) [
      | inl e1 ↦
          let (_, k, m) =
            bind-eq-ok (decode_mint eth log) (λ x. ok (mint x)) (rw (e, e1, decode_event) at h) in
          subst (Fits name log) (ok_inj m) (beq→eq name (codes "Mint") e1, k)
      | inr e1 ↦ elim (Bool-cases (name == codes "Burn")) [
        | inl e2 ↦
            let (_, k, m) =
              bind-eq-ok (decode_burn eth log) (λ x. ok (burn x))
                (rw (e, e1, e2, decode_event) at h) in
            subst (Fits name log) (ok_inj m) (beq→eq name (codes "Burn") e2, k)
        | inr e2 ↦ elim (Bool-cases (name == codes "Collect")) [
          | inl e3 ↦
              let (_, k, m) =
                bind-eq-ok (decode_collect eth log) (λ x. ok (collect x))
                  (rw (e, e1, e2, e3, decode_event) at h) in
              subst (Fits name log) (ok_inj m) (beq→eq name (codes "Collect") e3, k)
          | inr e3 ↦ absurd (cc (rw (e, e1, e2, e3, decode_event) at h))
        ]
      ]
    ]
  ]
