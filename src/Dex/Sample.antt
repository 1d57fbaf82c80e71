-- ===== src/Dex/Sample.antt =====
-- A plain instance of go-ethereum for tests: texts are addresses and hashes as they stand, and no ABI
-- is there.
use liquidity_scope.Prelude.{
  true, false, ◌||◌, Option, none, some, List, [], ◌∷◌, map, ◌==◌, nat_eq, list_eq, pair_eq,
  if◌then◌else◌,
}
use liquidity_scope.Prelude.Int.{ℤ, pos, negsuc}
use liquidity_scope.Text.{Text, codes}
use liquidity_scope.Dex.Abi.{AbiType, Argument}
use liquidity_scope.Dex.Values.{Value, big_int, uint8}
use liquidity_scope.Dex.Library.{Ethereum, addr}
use liquidity_scope.Dex.Events.Typed.{is_native}

abbrev pub plain_eth : Ethereum
plain_eth = record {
  is_hex_address = λ _. true;
  hex_to_address = λ t. t;
  address_hex = λ a. a;
  hash_hex = λ h. h;
  bytes_to_hash = λ t. t;
  hex_decode = λ t. some t;
  hex_encode = λ t. t;
  parses = λ _. false;
  pack = λ _ _ _. none;
  unpack = λ _ _ _. none;
  event_id = λ e. e.name;
  parse_topics = λ _ _. none;
  unpack_arguments = λ _ _. none;
}

-- An instance with the ABIs: an argument of the name amount1 is a thousand, every other signed one is
-- minus five; a width that Go has a type of is refused.
abbrev pub value_of : AbiType → ℤ → Option Value
value_of AbiType.address n = some (Value.address (codes "0x0a"))
value_of AbiType.bool n = some (Value.bool true)
value_of AbiType.string n = some (Value.string [])
value_of AbiType.bytes32 n = some (Value.bytes32 [])
value_of (AbiType.int bits) n = if is_native bits then none else some (big_int n)
value_of (AbiType.uint bits) n = if is_native bits then none else some (big_int (pos 7))

abbrev pub push_value : Option Value → Option (List Value) → Option (List Value)
push_value (some value) (some values) = some (value ∷ values)
push_value (some value) none = none
push_value none values = none

abbrev pub values_of : List Argument → Option (List Value)
values_of [] = some []
values_of (arg ∷ args) =
    push_value (value_of arg.kind (if arg.name == codes "amount1" then pos 1000 else negsuc 4))
      (values_of args)

abbrev answer_of : Text → Value
answer_of method =
    if method == codes "token0"
    then Value.address (codes "0x01")
    else if method == codes "token1"
    then Value.address (codes "0x02")
    else if method == codes "decimals"
    then uint8 18
    else if method == codes "symbol" || method == codes "name"
    then Value.string method
    else big_int (pos 60)

abbrev pub abi_eth : Ethereum
abi_eth = record plain_eth {
  parses = λ _. true;
  pack = λ _ method _. some method;
  unpack = λ _ method _. some (answer_of method, []);
  parse_topics = λ args hashes. some (map addr hashes);
  unpack_arguments = λ args _. values_of args;
}
