-- ===== src/Dex/Abi.antt =====
-- The ABIs in internal/dex/abi.go, internal/dex/erc20_abi.go and internal/aggregate/tvl.go: the inputs
-- of the pool's events, and the types of what the methods return.
use liquidity_scope.Prelude.{
  String, ℕ, Bool, true, false, ◌||◌, List, [], ◌∷◌, ◌==◌, nat_eq, list_eq, pair_eq, if◌then◌else◌,
}
use liquidity_scope.Text.{Text, codes}

pub data AbiType : Type 0 where
  address bool string bytes32 : AbiType
  int uint : (bits : ℕ) → AbiType

-- `abi.Argument`
pub record Argument : Type 0 where
  pub name : Text
  pub kind : AbiType
  pub indexed : Bool

-- `abi.Event`
pub record Event : Type 0 where
  pub name : Text
  pub inputs : List Argument

abbrev topic_arg : String → AbiType → Argument
topic_arg name kind = record { name = codes name; kind = kind; indexed = true }

abbrev data_arg : String → AbiType → Argument
data_arg name kind = record { name = codes name; kind = kind; indexed = false }

-- The four events of `v3PoolABIJSON`.
abbrev pub swap_event : Event
swap_event = record {
  name = codes "Swap";
  inputs =
      topic_arg "sender" AbiType.address
      ∷ topic_arg "recipient" AbiType.address
      ∷ data_arg "amount0" (AbiType.int 256)
      ∷ data_arg "amount1" (AbiType.int 256)
      ∷ data_arg "sqrtPriceX96" (AbiType.uint 160)
      ∷ data_arg "liquidity" (AbiType.uint 128)
      ∷ data_arg "tick" (AbiType.int 24)
      ∷ [];
}

abbrev pub mint_event : Event
mint_event = record {
  name = codes "Mint";
  inputs =
      data_arg "sender" AbiType.address
      ∷ topic_arg "owner" AbiType.address
      ∷ topic_arg "tickLower" (AbiType.int 24)
      ∷ topic_arg "tickUpper" (AbiType.int 24)
      ∷ data_arg "amount" (AbiType.uint 128)
      ∷ data_arg "amount0" (AbiType.uint 256)
      ∷ data_arg "amount1" (AbiType.uint 256)
      ∷ [];
}

abbrev pub burn_event : Event
burn_event = record {
  name = codes "Burn";
  inputs =
      topic_arg "owner" AbiType.address
      ∷ topic_arg "tickLower" (AbiType.int 24)
      ∷ topic_arg "tickUpper" (AbiType.int 24)
      ∷ data_arg "amount" (AbiType.uint 128)
      ∷ data_arg "amount0" (AbiType.uint 256)
      ∷ data_arg "amount1" (AbiType.uint 256)
      ∷ [];
}

abbrev pub collect_event : Event
collect_event = record {
  name = codes "Collect";
  inputs =
      topic_arg "owner" AbiType.address
      ∷ data_arg "recipient" AbiType.address
      ∷ topic_arg "tickLower" (AbiType.int 24)
      ∷ topic_arg "tickUpper" (AbiType.int 24)
      ∷ data_arg "amount0" (AbiType.uint 128)
      ∷ data_arg "amount1" (AbiType.uint 128)
      ∷ [];
}

-- `indexedArguments`
unfoldable pub indexed_arguments : List Argument → List Argument
indexed_arguments [] = []
indexed_arguments (arg ∷ args) =
    let rest = indexed_arguments args in if arg.indexed then arg ∷ rest else rest

-- `NonIndexed` of package abi
unfoldable pub non_indexed : List Argument → List Argument
non_indexed [] = []
non_indexed (arg ∷ args) = let rest = non_indexed args in if arg.indexed then rest else arg ∷ rest

abbrev pub kinds : List Argument → List AbiType
kinds [] = []
kinds (arg ∷ args) = arg.kind ∷ kinds args

-- The ABIs that the program parses.
pub data AbiName : Type 0 where
  v3_pool erc20_string erc20_bytes32 balance_of : AbiName

-- The outputs of the methods of `v3PoolABIJSON`; there are none where there is no such method.
abbrev pool_outputs : Text → List AbiType
pool_outputs method =
    if method == codes "token0" || method == codes "token1"
    then AbiType.address ∷ []
    else if method == codes "fee"
    then AbiType.uint 24 ∷ []
    else if method == codes "tickSpacing"
    then AbiType.int 24 ∷ []
    else if method == codes "liquidity"
    then AbiType.uint 128 ∷ []
    else if method == codes "slot0"
    then AbiType.uint 160
      ∷ AbiType.int 24
      ∷ AbiType.uint 16
      ∷ AbiType.uint 16
      ∷ AbiType.uint 16
      ∷ AbiType.uint 8
      ∷ AbiType.bool
      ∷ []
    else []

-- Those of the two ERC-20 ABIs, whose labels have the type `label`.
abbrev erc20_outputs : AbiType → Text → List AbiType
erc20_outputs label method =
    if method == codes "decimals"
    then AbiType.uint 8 ∷ []
    else if method == codes "symbol" || method == codes "name"
    then label ∷ []
    else []

unfoldable pub outputs : AbiName → Text → List AbiType
outputs v3_pool method = pool_outputs method
outputs erc20_string method = erc20_outputs AbiType.string method
outputs erc20_bytes32 method = erc20_outputs AbiType.bytes32 method
outputs balance_of method = if method == codes "balanceOf" then AbiType.uint 256 ∷ [] else []
