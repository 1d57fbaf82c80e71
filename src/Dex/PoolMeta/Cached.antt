-- ===== src/Dex/PoolMeta/Cached.antt =====
-- The cache of the pools' metadata: an entry, once made, stays, and answers every later request.
use liquidity_scope.Prelude.{
  ℕ, ◌≡◌, ap, ◌∙◌, subst, inl, inr, Bool, false, none, some, ◌==◌, nat_eq, list_eq, pair_eq, Result,
  ok, Bool-cases, Option-cases, beq→eq, ok_inj, Result-cases,
}
use liquidity_scope.Prelude.Dict
use liquidity_scope.Errors.{Error}
use liquidity_scope.Model.{PoolMeta}
use liquidity_scope.Chain.{Address, Node}
use liquidity_scope.Dex.Abi.{v3_pool}
use liquidity_scope.Dex.Library.{Ethereum}
use liquidity_scope.Dex.PoolMeta.{
  DecodeState, cache_token, fetch_pool_meta, fetch_pool_fields, cached_pool_meta, get_pool_meta,
}

-- What the first state has cached, the second one has too.
abbrev pub Extends : DecodeState → DecodeState → Type 0
Extends s s' =
    (pool : Address) (meta : PoolMeta)
    → Dict.lookup pool s.pool_metas ≡ some meta
    → Dict.lookup pool s'.pool_metas ≡ some meta

module _ (eth : Ethereum) (node : Node) where
  cache_token-pool_metas :
      (token : Address) (s : DecodeState) → (cache_token eth node token s).pool_metas ≡ s.pool_metas
  unfolding cache_token
  cache_token-pool_metas token s = elim (Option-cases (Dict.lookup token s.token_metas)) [
    | inl e ↦ rw (e, cache_token)
    | inr (meta, e) ↦ rw (e, cache_token)
  ]

  fetch_pool_meta-pool_metas :
      (pool : Address) (s : DecodeState)
      → (fetch_pool_meta eth node pool s).1.pool_metas ≡ s.pool_metas
  unfolding fetch_pool_meta
  fetch_pool_meta-pool_metas pool s = elim (Bool-cases (eth.parses v3_pool)) [
    | inr e ↦ rw (e, fetch_pool_meta)
    | inl e ↦ elim (Result-cases (fetch_pool_fields eth node pool s.client).0) [
      | inl (x, f) ↦ rw (e, f, fetch_pool_meta)
      | inr ((token0, token1, fee, spacing), f) ↦
          rw (e, f, fetch_pool_meta)
            (let s' : DecodeState = record s {
              client = (fetch_pool_fields eth node pool s.client).1;
            } in
              cache_token-pool_metas token1 (cache_token eth node token0 s')
              ∙ cache_token-pool_metas token0 s')
    ]
  ]

  insert-Extends :
      (pool : Address) (meta : PoolMeta) (s s' : DecodeState)
      → s'.pool_metas ≡ s.pool_metas
      → Dict.lookup pool s.pool_metas ≡ none
      → Extends s (record s' { pool_metas = Dict.insert pool meta s'.pool_metas })
  insert-Extends pool meta s s' e absent other known h = elim (Bool-cases (pool == other)) [
    | inl same ↦ absurd (cc (absent, h, beq→eq pool other same))
    | inr apart ↦ rw (Dict.lookup-insert pool other meta s'.pool_metas, apart, e) h
  ]

  pub cached_pool_meta-Extends :
      (pool : Address) (s : DecodeState) → Extends s (cached_pool_meta eth node pool s).1
  unfolding cached_pool_meta
  cached_pool_meta-Extends pool s other known h =
      elim (Option-cases (Dict.lookup pool s.pool_metas)) [
        | inr (meta, e) ↦ rw (e, cached_pool_meta) h
        | inl e ↦
            let same = fetch_pool_meta-pool_metas pool s in
            elim (Result-cases (fetch_pool_meta eth node pool s).0) [
              | inl (x, f) ↦ rw (e, f, cached_pool_meta, same) h
              | inr (meta, f) ↦
                  rw (e, f, cached_pool_meta)
                    (insert-Extends pool meta s (fetch_pool_meta eth node pool s).1 same e other
                      known h)
            ]
      ]

  pub lookup-cached_pool_meta :
      (pool : Address) (s : DecodeState) (meta : PoolMeta)
      → (cached_pool_meta eth node pool s).0 ≡ ok meta
      → Dict.lookup pool (cached_pool_meta eth node pool s).1.pool_metas ≡ some meta
  unfolding cached_pool_meta
  lookup-cached_pool_meta pool s meta h = elim (Option-cases (Dict.lookup pool s.pool_metas)) [
    | inr (known, e) ↦ rw (e, cached_pool_meta) (cc (e, rw (e, cached_pool_meta) at h))
    | inl e ↦ elim (Result-cases (fetch_pool_meta eth node pool s).0) [
      | inl (x, f) ↦ absurd (cc (rw (e, f, cached_pool_meta) at h))
      | inr (fetched, f) ↦
          rw (e, f, cached_pool_meta)
            (Dict.lookup-insert_self pool fetched (fetch_pool_meta eth node pool s).1.pool_metas
              ∙ ap some (ok_inj (rw (e, f, cached_pool_meta) at h)))
    ]
  ]

  get_pool_meta-pool_metas :
      (live : Bool) (pool : Address) (block_number : ℕ) (s : DecodeState)
      → (get_pool_meta eth node live pool block_number s).1.pool_metas
        ≡ (cached_pool_meta eth node pool s).1.pool_metas
  unfolding get_pool_meta
  get_pool_meta-pool_metas live pool block_number s =
      elim (Result-cases (cached_pool_meta eth node pool s).0) [
        | inl (x, e) ↦ rw (e, get_pool_meta)
        | inr (meta, e) ↦ elim (Bool-cases live) [
          | inl l ↦ rw (l, e, get_pool_meta)
          | inr l ↦ rw (l, e, get_pool_meta)
        ]
      ]

  pub get_pool_meta-Extends :
      (live : Bool) (pool : Address) (block_number : ℕ) (s : DecodeState)
      → Extends s (get_pool_meta eth node live pool block_number s).1
  get_pool_meta-Extends live pool block_number s other known h =
      rw (get_pool_meta-pool_metas live pool block_number s)
        (cached_pool_meta-Extends pool s other known h)

  -- Without the live fields, the metadata given is what the cache then has.
  pub lookup-get_pool_meta :
      (pool : Address) (block_number : ℕ) (s s' : DecodeState) (meta : PoolMeta)
      → get_pool_meta eth node false pool block_number s ≡ (ok meta, s')
      → Dict.lookup pool s'.pool_metas ≡ some meta
  unfolding get_pool_meta
  lookup-get_pool_meta pool block_number s s' meta h =
      elim (Result-cases (cached_pool_meta eth node pool s).0) [
        | inl (x, e) ↦ absurd (
            cc (ap (λ (p : Result Error PoolMeta × DecodeState). p.0) (rw (e, get_pool_meta) at h)))
        | inr (found, e) ↦
            let given =
              ap (λ (p : Result Error PoolMeta × DecodeState). p.0) (rw (e, get_pool_meta) at h) in
            let state =
              ap (λ (p : Result Error PoolMeta × DecodeState). p.1) (rw (e, get_pool_meta) at h) in
            subst (λ (t : DecodeState). Dict.lookup pool t.pool_metas ≡ some meta) state
              (lookup-cached_pool_meta pool s meta (e ∙ given))
      ]
