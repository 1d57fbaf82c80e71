-- ===== src/Dex/Decoder/Topics.antt =====
-- Which topics the decoder knows that `NewV3PoolDecoder` makes, and when there is one.
use liquidity_scope.Prelude.{
  ◌≡◌, refl, inl, inr, Bool, true, false, not, ◌&&◌, ◌||◌, Option, none, some, List, [], ◌∷◌, arith,
  ◌==◌, nat_eq, list_eq, pair_eq, if◌then◌else◌, ok, is_ok, Bool-cases, is_empty, bind-eq-ok,
  ok_inj,
}
use liquidity_scope.Prelude.Dict
use liquidity_scope.Prelude.Dict.{Dict}
use liquidity_scope.Text.{Text, codes, to_lower, trim_space}
use liquidity_scope.Dex.Abi.{v3_pool, swap_event, mint_event, burn_event, collect_event}
use liquidity_scope.Dex.Library.{Ethereum}
use liquidity_scope.Dex.Decoder.{
  Decoder, normalize_event_name, add_topics, event_key, default_topics, new_decoder, can_decode,
}

abbrev is_some : {A : Type 0} → Option A → Bool
is_some none = false
is_some (some a) = true

-- Whether the configuration names this topic, in whichever case.
abbrev pub configures : Text → List (Text × Text) → Bool
configures topic0 [] = false
configures topic0 ((key, name) ∷ names) =
    (not (is_empty key) && to_lower key == to_lower topic0) || configures topic0 names

-- Whether the name is one of the four, in whichever case and with white space around it.
abbrev pub names_event : Text → Bool
names_event name =
    let key = to_lower (trim_space name) in
    key == codes "swap" || key == codes "mint" || key == codes "burn" || key == codes "collect"

abbrev pub all_name_events : List (Text × Text) → Bool
all_name_events [] = true
all_name_events ((key, name) ∷ names) = names_event name && all_name_events names

normalize_event_name-names_event :
    (name : Text) → is_empty (normalize_event_name name) ≡ not (names_event name)
unfolding normalize_event_name
normalize_event_name-names_event name = ground arith

add_topics-ok :
    (names : List (Text × Text)) (m : Dict Text Text)
    → is_ok (add_topics names m) ≡ all_name_events names
unfolding add_topics
add_topics-ok [] m = refl
add_topics-ok ((key, name) ∷ names) m = ground (
  arith,
  normalize_event_name-names_event name,
  add_topics-ok names m,
  add_topics-ok names (Dict.insert (to_lower key) (normalize_event_name name) m),
)

is_some-lookup-insert :
    (k j v : Text) (m : Dict Text Text)
    → is_some (Dict.lookup j (Dict.insert k v m)) ≡ (k == j || is_some (Dict.lookup j m))
is_some-lookup-insert k j v m = ground (arith, Dict.lookup-insert k j v m)

lookup-add_topics :
    (topic0 : Text) (names : List (Text × Text)) (m m' : Dict Text Text)
    → add_topics names m ≡ ok m'
    → is_some (Dict.lookup (to_lower topic0) m')
      ≡ (is_some (Dict.lookup (to_lower topic0) m) || configures topic0 names)
unfolding add_topics
lookup-add_topics topic0 [] m m' h = rw (ok_inj h) (ground arith)
lookup-add_topics topic0 ((key, name) ∷ names) m m' h =
    let normal = normalize_event_name name in
    elim (Bool-cases (is_empty normal)) [
      | inl e ↦ absurd (cc (rw e at h))
      | inr e ↦
          let m1 = if is_empty key then m else Dict.insert (to_lower key) normal m in
          let ih = lookup-add_topics topic0 names m1 m' (rw e at h) in
          ground (arith, ih, is_some-lookup-insert (to_lower key) (to_lower topic0) normal m)
    ]

module _ (eth : Ethereum) where
  abbrev pub is_default : Text → Bool
  is_default topic0 =
      event_key eth collect_event == to_lower topic0
      || event_key eth burn_event == to_lower topic0
      || event_key eth mint_event == to_lower topic0
      || event_key eth swap_event == to_lower topic0

  lookup-default_topics :
      (topic0 : Text)
      → is_some (Dict.lookup (to_lower topic0) (default_topics eth)) ≡ is_default topic0
  unfolding default_topics
  lookup-default_topics topic0 = simp is_some-lookup-insert (ground arith)

  -- The decoder that `NewV3PoolDecoder` makes can decode a topic exactly if the topic is not empty
  -- and is, in whichever case, the topic of one of the four events or one that the configuration
  -- names.
  pub can_decode-new_decoder :
      (names : List (Text × Text)) (d : Decoder) (topic0 : Text)
      → new_decoder eth names ≡ ok d
      → can_decode eth d topic0
        ≡ (not (is_empty topic0) && (is_default topic0 || configures topic0 names))
  unfolding can_decode new_decoder
  can_decode-new_decoder names d topic0 h = elim (Bool-cases (eth.parses v3_pool)) [
    | inr e ↦ absurd (cc (rw e at h))
    | inl e ↦
        let (m, k, made) = bind-eq-ok (add_topics names (default_topics eth)) _ (rw e at h) in
        let known = lookup-add_topics topic0 names (default_topics eth) m k in
        rw (← ok_inj made) (ground (arith, known, lookup-default_topics topic0))
  ]

  -- `NewV3PoolDecoder` succeeds exactly if the ABI parses and every event name of the configuration
  -- is one of the four, in whichever case and with white space around it; also a name whose topic
  -- is empty must be.
  pub new_decoder-ok :
      (names : List (Text × Text))
      → is_ok (new_decoder eth names) ≡ (eth.parses v3_pool && all_name_events names)
  unfolding new_decoder
  new_decoder-ok names = ground (arith, add_topics-ok names (default_topics eth))
