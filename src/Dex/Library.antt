-- ===== src/Dex/Library.antt =====
-- go-ethereum as a parameter: addresses and hashes in hexadecimal, and the packing and unpacking of
-- calls and logs by an ABI.
use liquidity_scope.Prelude.{Bool, Option, List, nat_eq, list_eq, pair_eq}
use liquidity_scope.Prelude.Int.{ℤ}
use liquidity_scope.Text.{Text}
use liquidity_scope.Chain.{Address, Hash}
use liquidity_scope.Dex.Abi.{AbiName, Argument, Event}
use liquidity_scope.Dex.Values.{Value}

-- What `abi.ParseTopics` writes to a field of its struct: an address, or an integer.
pub data Topic : Type 0 where
  addr : Address → Topic
  int : ℤ → Topic

pub record Ethereum : Type 0 where
  -- common
  pub is_hex_address : Text → Bool
  pub hex_to_address : Text → Address
  pub address_hex : Address → Text
  pub hash_hex : Hash → Text
  pub bytes_to_hash : Text → Hash
  -- hexutil
  pub hex_decode : Text → Option Text
  pub hex_encode : Text → Text
  -- abi: whether `abi.JSON` accepts the text; the data of a call of a method that takes at most an
  -- address; the values of an answer, of which there is at least one, since every method that is
  -- called has an output
  pub parses : AbiName → Bool
  pub pack : AbiName → Text → Option Address → Option Text
  pub unpack : AbiName → Text → Text → Option (Value × List Value)
  -- the identity of an event; the indexed arguments in topics, in the order of the arguments; the
  -- other arguments in data
  pub event_id : Event → Hash
  pub parse_topics : List Argument → List Hash → Option (List Topic)
  pub unpack_arguments : List Argument → Text → Option (List Value)
