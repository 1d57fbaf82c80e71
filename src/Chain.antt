-- ===== src/Chain.antt =====
-- internal/chain/client.go: the client of the node. The node itself is a parameter: each answer may
-- depend on `clock`, the number of requests made before, so that a request that fails once may
-- succeed when it is made again. The context's cancellation is part of the answers.
use liquidity_scope.Prelude.{
  ℕ, ◌+◌, Bool, Option, none, some, List, [], ◌∷◌, nat_eq, list_eq, pair_eq, if◌then◌else◌, Result,
  ok, err, is_empty,
}
use liquidity_scope.Prelude.Dict
use liquidity_scope.Prelude.Dict.{Dict}
use liquidity_scope.Errors.{Error}
use liquidity_scope.Text.{Text}

-- common.Address and common.Hash: their bytes
abbrev pub Address : Type 0
Address = List ℕ

abbrev pub Hash : Type 0
Hash = List ℕ

-- ethereum.CallMsg, with the two fields that the program sets
pub record CallMsg : Type 0 where
  pub callee : Address
  pub payload : Text

-- types.Log
pub record Log : Type 0 where
  pub address : Address
  pub topics : List Hash
  pub payload : Text
  pub block_number : ℕ
  pub block_hash : Hash
  pub tx_hash : Hash
  pub tx_index : ℕ
  pub index : ℕ
  pub removed : Bool

-- ethereum.FilterQuery; `topics` is empty where no topic is asked for
pub record FilterQuery : Type 0 where
  pub from_block : ℕ
  pub to_block : ℕ
  pub addresses : List Address
  pub topics : List (List Hash)

-- What ethclient answers.
pub record Node : Type 0 where
  pub chain_id : ℕ → Result Error ℕ
  pub latest_block : ℕ → Result Error ℕ
  pub header_time : ℕ → ℕ → Result Error ℕ
  pub find_logs : ℕ → FilterQuery → Result Error (List Log)
  -- the block is `none` for the latest one
  pub call : ℕ → CallMsg → Option ℕ → Result Error Text

pub record Client : Type 0 where
  pub clock : ℕ
  pub ts_cache : Dict ℕ ℕ

abbrev pub new_client : Client
new_client = record { clock = 0; ts_cache = [] }

abbrev pub tick : Client → Client
tick c = record c { clock = c.clock + 1 }

module _ (node : Node) where
  -- `GetChainID`
  unfoldable pub get_chain_id : Client → Result Error ℕ × Client
  get_chain_id c = (node.chain_id c.clock, tick c)

  -- `LatestBlockNumber`
  unfoldable pub latest_block_number : Client → Result Error ℕ × Client
  latest_block_number c = (node.latest_block c.clock, tick c)

  -- `BlockTimestamp`: the cache first, then the header, whose time is cached.
  unfoldable pub block_timestamp : ℕ → Client → Result Error ℕ × Client
  block_timestamp number c = elim (Dict.lookup number c.ts_cache) [
    | some ts ↦ (ok ts, c)
    | none ↦ elim (node.header_time c.clock number) [
      | err e ↦ (err e, tick c)
      | ok ts ↦ (ok ts, record (tick c) { ts_cache = Dict.insert number ts c.ts_cache })
    ]
  ]

  -- `FilterLogs`
  unfoldable pub filter_logs :
      ℕ → ℕ → List Address → List Hash → Client → Result Error (List Log) × Client
  filter_logs from_block to_block addresses topic0 c =
      let query : FilterQuery = record {
        from_block = from_block;
        to_block = to_block;
        addresses = addresses;
        topics = if is_empty topic0 then [] else topic0 ∷ [];
      } in
      (node.find_logs c.clock query, tick c)

  -- `CallContract`
  unfoldable pub call_contract : CallMsg → Option ℕ → Client → Result Error Text × Client
  call_contract msg block c = (node.call c.clock msg block, tick c)
