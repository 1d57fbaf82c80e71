-- ===== src/Prelude/Results.antt =====
-- Fallible calls, and calls that also change state. Go returns `(value, err)`; what was written
-- before an error stays written, so a stateful call returns its state beside the error too.
use mathlib.Core.Path.{ap, ◌≡◌, refl}
use mathlib.Core.Logic.{◌⊎◌, inl, inr}
use mathlib.Core.Bool.{Bool, true, false}

pub data Result {ℓ} (E A : Type ℓ) : Type ℓ where
  ok : A → Result E A
  err : E → Result E A

infixl 5 ◌>>=◌
abbrev pub ◌>>=◌ {ℓ} : {E A B : Type ℓ} → Result E A → (A → Result E B) → Result E B
err failure >>= next = err failure
ok value >>= next = next value

abbrev pub is_ok {ℓ} : {E A : Type ℓ} → Result E A → Bool
is_ok (ok a) = true
is_ok (err e) = false

-- A result is an error or a value.
pub Result-cases {ℓ} :
    {E A : Type ℓ} (r : Result E A) → ((e : E) × (r ≡ err e)) ⊎ ((a : A) × (r ≡ ok a))
Result-cases (err e) = inl (e, refl)
Result-cases (ok a) = inr (a, refl)

-- A call that reads and writes a state of type `S`.
abbrev pub Action {ℓ} : Type ℓ → Type ℓ → Type ℓ → Type ℓ
Action E S A = S → Result E A × S

-- The rest of a chain, given how its first call ended.
abbrev pub and_then {ℓ} : {E S A B : Type ℓ} → Result E A → S → (A → Action E S B) → Result E B × S
and_then (ok a) s f = f a s
and_then (err e) s f = (err e, s)

-- A chain that returned a value went on after its first call.
pub and_then-eq-ok {ℓ} :
    {E S A B : Type ℓ} (r : Result E A) (s : S) (f : A → Action E S B) {b : B}
    → (and_then r s f).0 ≡ ok b
    → (a : A) × (r ≡ ok a) × (and_then r s f ≡ f a s)
and_then-eq-ok (err e) s f h = cc
and_then-eq-ok (ok a) s f h = (a, refl, refl)

-- A chain of fallible calls that returned a value got one from its first call.
pub bind-eq-ok {ℓ} :
    {E A B : Type ℓ} (r : Result E A) (f : A → Result E B) {b : B}
    → (r >>= f) ≡ ok b
    → (a : A) × (r ≡ ok a) × (f a ≡ ok b)
bind-eq-ok (err e) f h = cc
bind-eq-ok (ok a) f h = (a, refl, h)

pub ok_inj {ℓ} : {E A : Type ℓ} {a b : A} → Path (Result E A) (ok a) (ok b) → a ≡ b
ok_inj h = cc

pub err_inj {ℓ} : {E A : Type ℓ} {d e : E} → Path (Result E A) (err d) (err e) → d ≡ e
err_inj h = cc

-- A chain that returned an error got it from its first call or behind it.
pub and_then-eq-err {ℓ} :
    {E S A B : Type ℓ} (r : Result E A) (s : S) (f : A → Action E S B) {e : E}
    → (and_then r s f).0 ≡ err e
    → (r ≡ err e) ⊎ ((a : A) × ((f a s).0 ≡ err e))
and_then-eq-err (err x) s f h = inl (ap err (err_inj h))
and_then-eq-err (ok a) s f h = inr (a, h)
