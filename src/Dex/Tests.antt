-- ===== src/Dex/Tests.antt =====
-- The theorems on decoders at concrete inputs.
use liquidity_scope.Prelude.{
  ◌≡◌, refl, subst, inl, inr, true, false, some, List, [], ◌∷◌, ◌==◌, nat_eq, list_eq, pair_eq,
  if◌then◌else◌, is_ok, Bool-cases, Option-cases, some_inj,
}
use liquidity_scope.Prelude.Int.{ℤ, pos, negsuc}
use liquidity_scope.Errors.{topic_count}
use liquidity_scope.Text.{codes, to_lower, trim_space}
use liquidity_scope.Model.{LogRecord}
use liquidity_scope.Dex.Abi.{AbiType, Argument, kinds, indexed_arguments}
use liquidity_scope.Dex.Values.{Value}
use liquidity_scope.Dex.Sample.{abi_eth, values_of, value_of, push_value}
use liquidity_scope.Dex.Events.{decode_swap, event_topics, parse_indexed_topics}
use liquidity_scope.Dex.Events.Typed.{
  HasType, HaveTypes, of_log, is_address, is_bool, is_string, is_bytes32, is_big_int, is_big_uint,
  is_native, no_more, more,
}
use liquidity_scope.Dex.Decoder.{
  Decoder, new_decoder, can_decode, decode_event, normalize_event_name, add_topics, default_topics,
  event_key,
}
use liquidity_scope.Dex.Decoder.Topics.{can_decode-new_decoder, new_decoder-ok}
use liquidity_scope.Dex.Decoder.Refusals.{IsTyped, decode_event-errors}

HasType-value_of :
    (kind : AbiType) (n : ℤ) (value : Value) → value_of kind n ≡ some value → HasType kind value
HasType-value_of AbiType.address n value h =
    subst (HasType AbiType.address) (some_inj h) (is_address _)
HasType-value_of AbiType.bool n value h = subst (HasType AbiType.bool) (some_inj h) (is_bool _)
HasType-value_of AbiType.string n value h =
    subst (HasType AbiType.string) (some_inj h) (is_string _)
HasType-value_of AbiType.bytes32 n value h =
    subst (HasType AbiType.bytes32) (some_inj h) (is_bytes32 _)
HasType-value_of (AbiType.int bits) n value h = elim (Bool-cases (is_native bits)) [
  | inl e ↦ absurd (cc (rw e at h))
  | inr e ↦ subst (HasType (AbiType.int bits)) (some_inj (rw e at h)) (is_big_int bits n e)
]
HasType-value_of (AbiType.uint bits) n value h = elim (Bool-cases (is_native bits)) [
  | inl e ↦ absurd (cc (rw e at h))
  | inr e ↦ subst (HasType (AbiType.uint bits)) (some_inj (rw e at h)) (is_big_uint bits 7 e)
]

HaveTypes-values_of :
    (args : List Argument) (values : List Value)
    → values_of args ≡ some values
    → HaveTypes (kinds args) values
HaveTypes-values_of [] values h = subst (HaveTypes []) (some_inj h) no_more
HaveTypes-values_of (arg ∷ args) values h =
    let n = if arg.name == codes "amount1" then pos 1000 else negsuc 4 in
    elim (Option-cases (value_of arg.kind n)) [
      | inl e ↦ absurd (cc (rw (e, push_value) at h))
      | inr (value, e) ↦ elim (Option-cases (values_of args)) [
        | inl f ↦ absurd (cc (rw (e, f, push_value) at h))
        | inr (rest, f) ↦
            subst (HaveTypes (kinds (arg ∷ args))) (some_inj (rw (e, f, push_value) at h))
              (more (HasType-value_of arg.kind n value e) (HaveTypes-values_of args rest f))
      ]
    ]

abi_eth-IsTyped : IsTyped abi_eth
abi_eth-IsTyped args payload values h = HaveTypes-values_of args values h

abbrev no_topics : LogRecord
no_topics = record {
  chain_id = 1;
  block_number = 7;
  block_hash = [];
  tx_hash = [];
  tx_index = 0;
  log_index = 0;
  address = codes "0xab";
  topics = codes "Swap" ∷ [];
  payload = [];
  removed = false;
  timestamp = 25;
  ingested_at = [];
}

-- The topics of the two addresses are not there.
decode_event-errors_example : of_log (topic_count 3 1) ≡ true
unfolding decode_event normalize_event_name to_lower trim_space decode_swap event_topics
    parse_indexed_topics indexed_arguments
decode_event-errors_example =
    decode_event-errors abi_eth (codes " SWAP") no_topics (topic_count 3 1) abi_eth-IsTyped refl
      refl

abbrev pub sample_decoder : Decoder
sample_decoder = record {
  topic_to_name =
      (codes "swap", codes "Swap")
      ∷ (codes "mint", codes "Mint")
      ∷ (codes "burn", codes "Burn")
      ∷ (codes "collect", codes "Collect")
      ∷ (codes "0xff", codes "Mint")
      ∷ [];
}

can_decode-new_decoder_example : can_decode abi_eth sample_decoder (codes "0xFF") ≡ true
unfolding new_decoder add_topics default_topics event_key normalize_event_name to_lower trim_space
can_decode-new_decoder_example =
    can_decode-new_decoder abi_eth ((codes "0xFf", codes " mint") ∷ []) sample_decoder
      (codes "0xFF") refl

new_decoder-ok_example : is_ok (new_decoder abi_eth ((codes "0xff", codes "swop") ∷ [])) ≡ false
unfolding to_lower trim_space
new_decoder-ok_example = new_decoder-ok abi_eth ((codes "0xff", codes "swop") ∷ [])
