-- ===== src/Dex/PoolMeta/Typed.antt =====
-- The conversions of the pool's fields against the ABI of its methods.
use liquidity_scope.Prelude.{
  ◌≡◌, ap, ◌∙◌, ◌⊎◌, inl, inr, none, some, List, [], ◌∷◌, arith, nat_eq, list_eq, pair_eq, Result,
  ok, err, Option-cases, Result-cases, ok_inj, err_inj, and_then-eq-err, ◌>>=◌,
}
use liquidity_scope.Prelude.Int.{ℤ, pos, negsuc}
use liquidity_scope.Errors.{Error, int24_overflow}
use liquidity_scope.Text.{Text, codes}
use liquidity_scope.Chain.{Address, Node, Client, call_contract}
use liquidity_scope.Dex.Abi.{AbiName, AbiType, v3_pool, outputs}
use liquidity_scope.Dex.Values.{Value, as_address, as_big_int, int24_from_big}
use liquidity_scope.Dex.Library.{Ethereum}
use liquidity_scope.Dex.TokenMeta.{call_method}
use liquidity_scope.Dex.Events.Typed.{
  HaveTypes, more, as_address-address, as_big_int-uint, as_big_int-int,
}
use liquidity_scope.Dex.PoolMeta.{first_value, fetch_pool_fields}

abbrev Overflow : Error → Type 0
Overflow e = e ≡ int24_overflow

int24_from_big-err : (z : ℤ) (e : Error) → int24_from_big z ≡ err e → Overflow e
unfolding int24_from_big
int24_from_big-err (pos n) e h = ground arith
int24_from_big-err (negsuc n) e h = ground arith

-- The conversions of the four fields, on values of their types.
address_converts :
    (value : Value) (values : List Value) (e : Error)
    → HaveTypes (AbiType.address ∷ []) (value ∷ values)
    → as_address value ≡ err e
    → Overflow e
address_converts value values e (more h _) f =
    let (a, g) = as_address-address h in absurd (cc (f, g))

fee_converts :
    (value : Value) (values : List Value) (e : Error)
    → HaveTypes (AbiType.uint 24 ∷ []) (value ∷ values)
    → as_big_int value ≡ err e
    → Overflow e
fee_converts value values e (more h _) f = let (z, g) = as_big_int-uint h in absurd (cc (f, g))

spacing_converts :
    (value : Value) (values : List Value) (e : Error)
    → HaveTypes (AbiType.int 24 ∷ []) (value ∷ values)
    → (as_big_int value >>= λ n. int24_from_big n) ≡ err e
    → Overflow e
spacing_converts value values e (more h _) f =
    let (z, g) = as_big_int-int h in int24_from_big-err z e (rw g at f)

module _ (eth : Ethereum) (node : Node) where
  -- Package abi gives each value of an answer the Go type of its ABI type.
  abbrev pub AnswersTyped : Type 0
  AnswersTyped =
      (abi : AbiName) (method answer : Text) (value : Value) (values : List Value)
      → eth.unpack abi method answer ≡ some (value, values)
      → HaveTypes (outputs abi method) (value ∷ values)

  call_method-HaveTypes :
      (callee : Address) (abi : AbiName) (method : Text) (c : Client) (value : Value)
      (values : List Value)
      → AnswersTyped
      → (call_method eth node callee abi method none none c).0 ≡ ok (value, values)
      → HaveTypes (outputs abi method) (value ∷ values)
  unfolding call_method
  call_method-HaveTypes callee abi method c value values typed h =
      elim (Option-cases (eth.pack abi method none)) [
        | inl e ↦ absurd (cc (rw (e, call_method) at h))
        | inr (payload, e) ↦
            elim (Result-cases
              (call_contract node (record { callee = callee; payload = payload }) none c).0) [
                | inl (x, f) ↦ absurd (cc (rw (e, f, call_method) at h))
                | inr (resp, f) ↦ elim (Option-cases (eth.unpack abi method resp)) [
                  | inl g ↦ absurd (cc (rw (e, f, g, call_method) at h))
                  | inr (found, g) ↦
                      typed abi method resp value values
                        (g ∙ ap some (ok_inj (rw (e, f, g, call_method) at h)))
                ]
              ]
      ]

  -- The error is the one with which a call of the pool failed.
  abbrev pub CallFailed : Address → Error → Type 0
  CallFailed pool e =
      (method : Text) × (c : Client) × ((call_method eth node pool v3_pool method none none c).0
        ≡ err e)

  -- Where the conversion takes every value of the method's first type, only the call can fail, or the
  -- conversion with `e`.
  first_value-fails :
      {A : Type 0} (convert : Value → Result Error A) (may_fail : Error → Type 0) (method : Text)
      (pool : Address) (c : Client) (e : Error)
      → AnswersTyped
      → ((value : Value) (values : List Value)
          → HaveTypes (outputs v3_pool method) (value ∷ values)
          → convert value ≡ err e
          → may_fail e)
      → (first_value eth node convert method pool c).0 ≡ err e
      → may_fail e ⊎ CallFailed pool e
  unfolding first_value
  first_value-fails convert may_fail method pool c e typed conversion h =
      elim (Result-cases (call_method eth node pool v3_pool method none none c).0) [
        | inl (x, f) ↦ inr (method, c, f ∙ ap err (err_inj (rw (f, first_value) at h)))
        | inr ((value, values), f) ↦ inl (
            conversion value values
              (call_method-HaveTypes pool v3_pool method c value values typed f)
              (rw (f, first_value) at h))
      ]

  -- Where package abi gives each value of an answer the Go type of its ABI type, reading a pool's
  -- tokens, fee and tick spacing fails only where a call of the pool fails or the tick spacing is
  -- beyond 24 bits: no conversion meets a type that it does not know.
  fetch_pool_fields-errors :
      (pool : Address) (c : Client) (e : Error)
      → AnswersTyped
      → (fetch_pool_fields eth node pool c).0 ≡ err e
      → Overflow e ⊎ CallFailed pool e
  unfolding fetch_pool_fields outputs
  fetch_pool_fields-errors pool c e typed h =
      let (r0, c0) = first_value eth node as_address (codes "token0") pool c in
      elim (and_then-eq-err r0 c0 _ h) [
        | inl f0 ↦
            first_value-fails as_address Overflow (codes "token0") pool c e typed
              (λ v vs. address_converts v vs e) f0
        | inr (token0, h0) ↦
            let (r1, c1) = first_value eth node as_address (codes "token1") pool c0 in
            elim (and_then-eq-err r1 c1 _ h0) [
              | inl f1 ↦
                  first_value-fails as_address Overflow (codes "token1") pool c0 e typed
                    (λ v vs. address_converts v vs e) f1
              | inr (token1, h1) ↦
                  let (r2, c2) = first_value eth node as_big_int (codes "fee") pool c1 in
                  elim (and_then-eq-err r2 c2 _ h1) [
                    | inl f2 ↦
                        first_value-fails as_big_int Overflow (codes "fee") pool c1 e typed
                          (λ v vs. fee_converts v vs e) f2
                    | inr (fee, h2) ↦
                        let convert = λ (v : Value). as_big_int v >>= λ n. int24_from_big n in
                        let (r3, c3) = first_value eth node convert (codes "tickSpacing") pool c2 in
                        elim (and_then-eq-err r3 c3 _ h2) [
                          | inl f3 ↦
                              first_value-fails convert Overflow (codes "tickSpacing") pool c2 e
                                typed (λ v vs. spacing_converts v vs e) f3
                          | inr (spacing, h3) ↦ absurd (cc h3)
                        ]
                  ]
            ]
      ]
