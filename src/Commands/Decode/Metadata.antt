-- ===== src/Commands/Decode/Metadata.antt =====
-- The metadata that the decoded events carry: without the live fields, one for each pool.
use liquidity_scope.Prelude.{
  All-map, All-append, ◌≡◌, inl, inr, Bool, false, Option, some, List, [], ◌∷◌, nat_eq, list_eq,
  pair_eq, ok, Bool-cases, Option-cases, is_empty, All, Result-cases,
}
use liquidity_scope.Prelude.Dict
use liquidity_scope.Errors.{Error}
use liquidity_scope.Text.{Text, trim_space, to_lower}
use liquidity_scope.Model.{LogRecord, TypedEvent, PoolMeta}
use liquidity_scope.Chain.{Client, Address, Node}
use liquidity_scope.Dex.Library.{Ethereum}
use liquidity_scope.Dex.PoolMeta.{DecodeState, get_pool_meta}
use liquidity_scope.Dex.PoolMeta.Cached.{Extends, get_pool_meta-Extends, lookup-get_pool_meta}
use liquidity_scope.Dex.Decoder.{Decoder, decode, decode_topics, decode_named, can_decode}
use liquidity_scope.Dex.Decoder.Accepted.{decode-Made}
use liquidity_scope.Commands.Decode.{Outside, new_session, process}
use liquidity_scope.Commands.Decode.Outcomes.{
  events_of, Outcome, events, outcomes, outcome_of, outcome_of_topics,
}
use liquidity_scope.Commands.Decode.Written.{IsSound, process-written}

module _ (eth : Ethereum) (node : Node) (live : Bool) (d : Decoder) where
  decode_named-Extends :
      (topic0 name : Text) (log : LogRecord) (s : DecodeState)
      → Extends s (decode_named eth node live d topic0 name log s).1
  unfolding decode_named
  decode_named-Extends topic0 name log s other known h =
      elim (Bool-cases (eth.is_hex_address log.address)) [
        | inr e ↦ rw (e, decode_named) h
        | inl e ↦
            let pool = eth.hex_to_address log.address in
            let kept = get_pool_meta-Extends eth node live pool log.block_number s other known h in
            elim (Result-cases (get_pool_meta eth node live pool log.block_number s).0) [
              | inl (x, f) ↦ rw (e, f, decode_named) kept
              | inr (meta, f) ↦ rw (e, f, decode_named) kept
            ]
      ]

  decode_topics-Extends :
      (topics : List Text) (log : LogRecord) (s : DecodeState)
      → Extends s (decode_topics eth node live d topics log s).1
  unfolding decode_topics
  decode_topics-Extends [] log s other known h = h
  decode_topics-Extends (topic0 ∷ topics) log s other known h =
      elim (Option-cases (Dict.lookup (to_lower topic0) d.topic_to_name)) [
        | inl e ↦ rw (e, decode_topics) h
        | inr (name, e) ↦
            rw (e, decode_topics) (decode_named-Extends topic0 name log s other known h)
      ]

  pub decode-Extends :
      (log : LogRecord) (s : DecodeState) → Extends s (decode eth node live d log s).1
  unfolding decode
  decode-Extends log s = decode_topics-Extends log.topics log s

-- The event carries the metadata that the cache has for its pool.
abbrev pub Carries : Ethereum → DecodeState → TypedEvent → Type 0
Carries eth s event =
    Dict.lookup (eth.hex_to_address event.address) s.pool_metas ≡ some event.pool_meta

decode-Carries :
    (eth : Ethereum) (node : Node) (d : Decoder) (log : LogRecord) (s : DecodeState)
    (event : TypedEvent)
    → (decode eth node false d log s).0 ≡ ok event
    → Carries eth (decode eth node false d log s).1 event
decode-Carries eth node d log s event h =
    let made = decode-Made eth node false d log s event h in
    rw made.place (
      lookup-get_pool_meta eth node (eth.hex_to_address log.address) log.block_number s
        (decode eth node false d log s).1 event.pool_meta made.metadata)

module _ (env : Outside) (d : Decoder) where
  -- One line: the cache grows, and an event of the line carries what it has.
  abbrev Consistent : DecodeState → Outcome × DecodeState → Type 0
  Consistent st (o, st') = Extends st st' × All (Carries env.eth st') (events_of o)

  outcome_of_topics-Consistent :
      (topics : List Text) (r : LogRecord) (st : DecodeState)
      → Consistent st (outcome_of_topics env false d topics r st)
  outcome_of_topics-Consistent [] r st = (λ _ _ h. h, tt)
  outcome_of_topics-Consistent (topic0 ∷ topics) r st =
      elim (Bool-cases (can_decode env.eth d topic0)) [
        | inr e ↦ rw e (λ _ _ h. h, tt)
        | inl e ↦ elim (Result-cases (decode env.eth env.node false d r st).0) [
          | inl (x, f) ↦ rw (e, f) (decode-Extends env.eth env.node false d r st, tt)
          | inr (event, f) ↦
              rw (e, f)
                (
                  decode-Extends env.eth env.node false d r st,
                  (decode-Carries env.eth env.node d r st event f, tt),
                )
        ]
      ]

  outcome_of-Consistent :
      (line : Text) (st : DecodeState) → Consistent st (outcome_of env false d line st)
  outcome_of-Consistent line st = elim (Bool-cases (is_empty (trim_space line))) [
    | inl e ↦ rw e (λ _ _ h. h, tt)
    | inr e ↦ elim (Result-cases (env.unmarshal_log (trim_space line))) [
      | inl (x, f) ↦ rw (e, f) (λ _ _ h. h, tt)
      | inr (r, f) ↦ rw (e, f) (outcome_of_topics-Consistent r.topics r st)
    ]
  ]

  outcomes-Consistent :
      (lines : List Text) (st : DecodeState)
      → let (os, st') = outcomes env false d lines st in
        Extends st st' × All (Carries env.eth st') (events os)
  outcomes-Consistent [] st = (λ _ _ h. h, tt)
  outcomes-Consistent (line ∷ lines) st =
      let (grows, carries) = outcome_of-Consistent line st in
      let (o, st1) = outcome_of env false d line st in
      let (grows', carries') = outcomes-Consistent lines st1 in
      let st2 = (outcomes env false d lines st1).1 in
      (
        λ pool meta h. grows' pool meta (grows pool meta h),
        All-append (Carries env.eth st2) (events_of o) (events (outcomes env false d lines st1).0)
            (All-map (Carries env.eth st1) (Carries env.eth st2) (events_of o)
              (λ event. grows' (env.eth.hex_to_address event.address) event.pool_meta) carries)
            carries',
      )

  -- Without the live fields, and with files that refuse no write, the events that the command writes
  -- carry one metadata for each pool, whatever the node answers and whichever requests fail: events
  -- with the same pool have the same metadata.
  pub process-one_metadata :
      (lines : List Text) (scan_error : Option Error) (client : Client)
      → IsSound env.out_medium
      → IsSound env.err_medium
      → let s = (process env false d lines scan_error (new_session client)).1 in
        (metadata : Address → Option PoolMeta) × All
          (λ (e : TypedEvent). metadata (env.eth.hex_to_address e.address) ≡ some e.pool_meta)
          s.out.written
  process-one_metadata lines scan_error client sound_out sound_err =
      let start = (new_session client).state in
      let (_, written, _) =
        process-written env false d sound_out sound_err lines scan_error client in
      let st = (outcomes env false d lines start).1 in
      (λ pool. Dict.lookup pool st.pool_metas, rw written (outcomes-Consistent lines start).1)
