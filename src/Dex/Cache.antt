-- ===== src/Dex/Cache.antt =====
-- `PoolMetaCache` and `TokenMetaCache` of internal/dex/metadata.go: Go's map behind a mutex. Both have
-- the same operations.
use liquidity_scope.Prelude.{Option, [], nat_eq, list_eq, pair_eq}
use liquidity_scope.Prelude.Dict
use liquidity_scope.Prelude.Dict.{Dict}
use liquidity_scope.Model.{PoolMeta, TokenMeta}
use liquidity_scope.Chain.{Address}

abbrev pub PoolMetaCache : Type 0
PoolMetaCache = Dict Address PoolMeta

abbrev pub TokenMetaCache : Type 0
TokenMetaCache = Dict Address TokenMeta

-- `NewPoolMetaCache`, `NewTokenMetaCache`
abbrev pub new_cache : {V : Type 0} → Dict Address V
new_cache = []

-- `Get`
abbrev pub get : {V : Type 0} → Address → Dict Address V → Option V
get a cache = Dict.lookup a cache

-- `Set`
abbrev pub set : {V : Type 0} → Address → V → Dict Address V → Dict Address V
set a v cache = Dict.insert a v cache
