-- ===== src/Dex/PoolMeta.antt =====
-- The metadata of pools: the caches and the two `FetchPool` functions of internal/dex/metadata.go, and
-- `getPoolMeta` of internal/dex/v3_pool_decoder.go. Both caches are there, as the decode command makes
-- them; the client is not nil.
pub mod Cached
pub mod Typed
use liquidity_scope.Prelude.{
  ℕ, zero, suc, ◌+◌, ◌-◌, ◌*◌, ◌/◌, ◌%◌, ◌^◌, ◌≤◌, ◌<◌, ◌≡◌, refl, sym, ap, ◌∙◌, subst, ◌≢◌, ◌↔◌,
  ◌⊎◌, inl, inr, Bool, true, false, not, ◌&&◌, ◌||◌, Option, none, some, List, [], ◌∷◌, ◌++◌, map,
  append-nil, append_assoc, arith, ltb, leb, ◌==◌, Eq, nat_eq, list_eq, pair_eq, beq_refl,
  if◌then◌else◌, Result, ok, err, is_ok, Bool-cases, Option-cases, length, is_empty, All, replicate,
  ne→beq_false, le→leb, lt→leb_false, le→ltb_false, ◌>>=◌, and_then,
}
use liquidity_scope.Prelude.Dict
use liquidity_scope.Prelude.Dict.{Dict}
use liquidity_scope.Prelude.Int.{ℤ, abs}
use liquidity_scope.Errors.{Error, parse_abi}
use liquidity_scope.Text.{Text, codes}
use liquidity_scope.Text.Decimal.{format_int}
use liquidity_scope.Model.{PoolMeta, PoolSlot0, TokenMeta}
use liquidity_scope.Chain.{Address, Node, Client}
use liquidity_scope.Dex.Cache
use liquidity_scope.Dex.Cache.{PoolMetaCache, TokenMetaCache}
use liquidity_scope.Dex.Abi.{v3_pool}
use liquidity_scope.Dex.Values.{Value, as_address, as_big_int, int24_from_big}
use liquidity_scope.Dex.Library.{Ethereum}
use liquidity_scope.Dex.TokenMeta.{call_method, fetch_token_meta}

-- The client and the caches that the decoders share.
pub record DecodeState : Type 0 where
  pub client : Client
  pub pool_metas : PoolMetaCache
  pub token_metas : TokenMetaCache

-- The optional fields: the liquidity is empty and the slot `none` where a call did not give them.
pub record OptionalMeta : Type 0 where
  pub liquidity : Text
  pub slot0 : Option PoolSlot0

abbrev or_empty : Result Error ℤ → Text
or_empty (ok n) = format_int n
or_empty (err e) = []

-- The liquidity that an answer gives.
abbrev liquidity_of : Result Error (Value × List Value) → Text
liquidity_of (err e) = []
liquidity_of (ok (value, _)) = or_empty (as_big_int value)

abbrev slot_of : Result Error ℤ → Result Error ℤ → Option PoolSlot0
slot_of (ok sqrt) (ok tick) = some (record { sqrt_price_x96 = format_int sqrt; tick = tick })
slot_of (err e) _ = none
slot_of (ok sqrt) (err e) = none

-- The slot that an answer of at least two values gives.
abbrev slot0_of : Result Error (Value × List Value) → Option PoolSlot0
slot0_of (err e) = none
slot0_of (ok (value, [])) = none
slot0_of (ok (value, second ∷ _)) =
    slot_of (as_big_int value) (as_big_int second >>= λ tick. int24_from_big tick)

module _ (eth : Ethereum) (node : Node) where
  -- `callPoolMethod` at the latest block, and a conversion of the first value of the answer.
  unfoldable pub first_value :
      {A : Type 0} → (Value → Result Error A) → Text → Address → Client → Result Error A × Client
  first_value convert method pool c =
      let (answer, c') = call_method eth node pool v3_pool method none none c in
      elim answer [ err e ↦ (err e, c') | ok (value, _) ↦ (convert value, c') ]

  -- The part of `FetchPoolMeta` that reads the pool: both tokens, the fee and the tick spacing. The
  -- fee is cut to 32 bits.
  unfoldable pub fetch_pool_fields :
      Address → Client → Result Error (Address × Address × ℕ × ℤ) × Client
  fetch_pool_fields pool c =
      let (r0, c0) = first_value as_address (codes "token0") pool c in
      and_then r0 c0 λ token0 c0.
        let (r1, c1) = first_value as_address (codes "token1") pool c0 in
        and_then r1 c1 λ token1 c1.
          let (r2, c2) = first_value as_big_int (codes "fee") pool c1 in
          and_then r2 c2 λ fee c2.
            let (r3, c3) =
              first_value (λ v. as_big_int v >>= λ n. int24_from_big n) (codes "tickSpacing") pool
                c2 in
            and_then r3 c3
              λ tick_spacing c3. (ok (token0, token1, abs fee % 2 ^ 64 % 2 ^ 32, tick_spacing), c3)

  -- One token's metadata is fetched unless it is known. It is kept also when that failed, with what
  -- was read.
  unfoldable pub cache_token : Address → DecodeState → DecodeState
  cache_token token s = elim (Cache.get token s.token_metas) [
    | some _ ↦ s
    | none ↦
        let ((_, meta), c) = fetch_token_meta eth node token s.client in
        record s { client = c; token_metas = Cache.set token meta s.token_metas }
  ]

  -- `FetchPoolMeta`
  unfoldable pub fetch_pool_meta : Address → DecodeState → Result Error PoolMeta × DecodeState
  unfolding fetch_pool_fields cache_token
  fetch_pool_meta pool s =
      if not (eth.parses v3_pool)
      then (err parse_abi, s)
      else (let (fields, c) = fetch_pool_fields pool s.client in
          and_then fields (record s { client = c })
            λ (token0, token1, fee, tick_spacing) s'. (
              ok (record {
                token0 = eth.address_hex token0;
                token1 = eth.address_hex token1;
                fee = fee;
                tick_spacing = tick_spacing;
                liquidity = [];
                slot0 = none;
              }),
              cache_token token1 (cache_token token0 s'),
            ))

  -- `FetchPoolOptionalMeta`: block 0 stands for the latest one.
  unfoldable pub fetch_pool_optional_meta :
      Address → ℕ → Client → Result Error OptionalMeta × Client
  fetch_pool_optional_meta pool block_number c =
      if not (eth.parses v3_pool)
      then (err parse_abi, c)
      else (let block : Option ℕ = if ltb 0 block_number then some block_number else none in
          let (liquidity, c1) =
            call_method eth node pool v3_pool (codes "liquidity") none block c in
          let (slot, c2) = call_method eth node pool v3_pool (codes "slot0") none block c1 in
          (ok (record { liquidity = liquidity_of liquidity; slot0 = slot0_of slot }), c2))

  -- What the optional fields change of the metadata.
  abbrev pub with_optional : Result Error OptionalMeta → PoolMeta → PoolMeta
  with_optional (err e) meta = meta
  with_optional (ok optional) meta =
      let meta' : PoolMeta =
        if is_empty optional.liquidity
        then meta
        else record meta { liquidity = optional.liquidity } in
      elim optional.slot0 [ none ↦ meta' | some slot ↦ record meta' { slot0 = some slot } ]

  -- The metadata from the cache, or else from the chain and then into the cache.
  unfoldable pub cached_pool_meta : Address → DecodeState → Result Error PoolMeta × DecodeState
  cached_pool_meta pool s = elim (Cache.get pool s.pool_metas) [
    | some meta ↦ (ok meta, s)
    | none ↦
        let (fetched, s') = fetch_pool_meta pool s in
        and_then fetched s'
          λ meta s'. (ok meta, record s' { pool_metas = Cache.set pool meta s'.pool_metas })
  ]

  -- `getPoolMeta`; `live` is the context's `IncludeLiveMeta`
  unfoldable pub get_pool_meta :
      Bool → Address → ℕ → DecodeState → Result Error PoolMeta × DecodeState
  get_pool_meta live pool block_number s =
      let (cached, s') = cached_pool_meta pool s in
      and_then cached s' λ meta s'.
        if live
        then (let (optional, c) = fetch_pool_optional_meta pool block_number s'.client in
            (ok (with_optional optional meta), record s' { client = c }))
        else (ok meta, s')
