-- ===== src/Dex/Decoder/Refusals.antt =====
-- Which errors the decoder of an event can return, if package abi keeps to the types of the ABI.
use liquidity_scope.Prelude.{
  ◌≡◌, refl, subst, inl, inr, Bool, true, false, some, List, [], nat_eq, list_eq, pair_eq,
  if◌then◌else◌, Result, ok, err, Option-cases, is_empty, ok_inj, ◌>>=◌,
}
use liquidity_scope.Errors.{Error, bad_data}
use liquidity_scope.Text.{Text, codes}
use liquidity_scope.Model.{LogRecord}
use liquidity_scope.Dex.Abi.{
  Argument, Event, kinds, non_indexed, swap_event, mint_event, burn_event, collect_event,
}
use liquidity_scope.Dex.Values.{Value}
use liquidity_scope.Dex.Library.{Ethereum, Topic}
use liquidity_scope.Dex.Events.{
  decode_swap, decode_mint, decode_burn, decode_collect, event_topics, two_addresses,
  owner_and_ticks, unpack_non_indexed, swap_values, mint_values, burn_values, collect_values,
}
use liquidity_scope.Dex.Decoder.{normalize_event_name, decode_event}
use liquidity_scope.Dex.Events.Typed.{
  HaveTypes, OfLog, of_log, bind-OfLog, option-OfLog, event_topics-OfLog, two_addresses-OfLog,
  owner_and_ticks-OfLog, swap_values-OfLog, mint_values-OfLog, burn_values-OfLog,
  collect_values-OfLog,
}

-- The name that `normalizeEventName` chooses by its four tests.
abbrev name_of : Bool → Bool → Bool → Bool → Text
name_of is_swap is_mint is_burn is_collect =
    if is_swap
    then codes "Swap"
    else if is_mint
    then codes "Mint"
    else if is_burn
    then codes "Burn"
    else if is_collect
    then codes "Collect"
    else []

module _ (eth : Ethereum) where
  -- Package abi gives each value the Go type of its ABI type.
  abbrev pub IsTyped : Type 0
  IsTyped =
      (arguments : List Argument) (payload : Text) (values : List Value)
      → eth.unpack_arguments arguments payload ≡ some values
      → HaveTypes (kinds arguments) values

  unpack_non_indexed-HaveTypes :
      IsTyped
      → (event : Event) (payload : Text) (values : List Value)
      → unpack_non_indexed eth event payload ≡ ok values
      → HaveTypes (kinds (non_indexed event.inputs)) values
  unfolding unpack_non_indexed
  unpack_non_indexed-HaveTypes typed event payload values h =
      elim (Option-cases (eth.hex_decode payload)) [
        | inl e ↦ absurd (cc (rw (e, unpack_non_indexed) at h))
        | inr (encoded, e) ↦
            elim (Option-cases (eth.unpack_arguments (non_indexed event.inputs) encoded)) [
              | inl f ↦ absurd (cc (rw (e, f, unpack_non_indexed) at h))
              | inr (found, f) ↦
                  typed (non_indexed event.inputs) encoded values
                    (cc (f, ok_inj (rw (e, f, unpack_non_indexed) at h)))
            ]
      ]

  unpack_non_indexed-OfLog :
      (event : Event) (payload : Text) → OfLog (unpack_non_indexed eth event payload)
  unfolding unpack_non_indexed
  unpack_non_indexed-OfLog event payload =
      option-OfLog (eth.hex_decode payload) bad_data _ refl λ _.
        option-OfLog (eth.unpack_arguments (non_indexed event.inputs) _) bad_data _ refl λ _. tt

  -- The steps that the four decoders share.
  decoder-OfLog :
      {A B : Type 0} (event : Event) (log : LogRecord) (read : List Topic → Result Error A)
      (convert : A → List Value → Result Error B)
      → IsTyped
      → ((topics : List Topic) → OfLog (read topics))
      → ((a : A) (values : List Value)
          → HaveTypes (kinds (non_indexed event.inputs)) values
          → OfLog (convert a values))
      → OfLog (
          event_topics eth event log.topics >>= λ topics. read topics >>= λ a.
          unpack_non_indexed eth event log.payload >>= λ values. convert a values)
  decoder-OfLog event log read convert typed h k =
      bind-OfLog (event_topics eth event log.topics) _ (event_topics-OfLog eth event log.topics)
        λ topics _. bind-OfLog (read topics) _ (h topics) λ a _.
          bind-OfLog (unpack_non_indexed eth event log.payload) _
            (unpack_non_indexed-OfLog event log.payload)
            λ values e. k a values (unpack_non_indexed-HaveTypes typed event log.payload values e)

  pub decode_swap-OfLog : (log : LogRecord) → IsTyped → OfLog (decode_swap eth log)
  unfolding decode_swap
  decode_swap-OfLog log typed =
      decoder-OfLog swap_event log (two_addresses eth) (swap_values eth) typed
        (two_addresses-OfLog eth) (swap_values-OfLog eth)

  pub decode_mint-OfLog : (log : LogRecord) → IsTyped → OfLog (decode_mint eth log)
  unfolding decode_mint
  decode_mint-OfLog log typed =
      decoder-OfLog mint_event log (owner_and_ticks eth) (mint_values eth) typed
        (owner_and_ticks-OfLog eth) (mint_values-OfLog eth)

  pub decode_burn-OfLog : (log : LogRecord) → IsTyped → OfLog (decode_burn eth log)
  unfolding decode_burn
  decode_burn-OfLog log typed =
      decoder-OfLog burn_event log (owner_and_ticks eth) (burn_values eth) typed
        (owner_and_ticks-OfLog eth) (burn_values-OfLog eth)

  pub decode_collect-OfLog : (log : LogRecord) → IsTyped → OfLog (decode_collect eth log)
  unfolding decode_collect
  decode_collect-OfLog log typed =
      decoder-OfLog collect_event log (owner_and_ticks eth) (collect_values eth) typed
        (owner_and_ticks-OfLog eth) (collect_values-OfLog eth)

  named-OfLog :
      (is_swap is_mint is_burn is_collect : Bool) (log : LogRecord)
      → IsTyped
      → let name = name_of is_swap is_mint is_burn is_collect in
        is_empty name ≡ false → OfLog (decode_event eth name log)
  unfolding decode_event
  named-OfLog true _ _ _ log typed h =
      bind-OfLog (decode_swap eth log) _ (decode_swap-OfLog log typed) λ _ _. tt
  named-OfLog false true _ _ log typed h =
      bind-OfLog (decode_mint eth log) _ (decode_mint-OfLog log typed) λ _ _. tt
  named-OfLog false false true _ log typed h =
      bind-OfLog (decode_burn eth log) _ (decode_burn-OfLog log typed) λ _ _. tt
  named-OfLog false false false true log typed h =
      bind-OfLog (decode_collect eth log) _ (decode_collect-OfLog log typed) λ _ _. tt
  named-OfLog false false false false log typed h = absurd (cc h)

  -- Where package abi gives each value the Go type of its ABI type, the decoder of an event, for every
  -- name that the configuration may give, fails only on what the log itself holds: the number or the
  -- form of its topics, data that cannot be unpacked, or a tick beyond 24 bits. No conversion meets a
  -- type that it does not know, and no count of values is wrong.
  pub decode_event-errors :
      (name : Text) (log : LogRecord) (e : Error)
      → IsTyped
      → is_empty (normalize_event_name name) ≡ false
      → decode_event eth (normalize_event_name name) log ≡ err e
      → of_log e ≡ true
  unfolding normalize_event_name
  decode_event-errors name log e typed h m = subst OfLog m (named-OfLog _ _ _ _ log typed h)
