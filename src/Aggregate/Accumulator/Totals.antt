-- ===== src/Aggregate/Accumulator/Totals.antt =====
-- The totals of an accumulator against sums over the swaps that it was given.
use liquidity_scope.Prelude.{
  ℕ, zero, suc, ◌+◌, ◌*◌, ◌/◌, ◌%◌, ◌^◌, ◌≡◌, refl, ap, ◌∙◌, subst, inl, inr, ◌&&◌, Option, none,
  some, List, [], ◌∷◌, arith, ◌==◌, nat_eq, list_eq, pair_eq, if◌then◌else◌, Result, ok, err,
  Option-cases, length,
}
use native.Mathlib.Nat.{add-zero, zero-add, add_assoc}
use liquidity_scope.Prelude.Int.{ℤ, pos, negsuc, abs, is_negative, is_positive}
use liquidity_scope.Aggregate.Accumulator.{
  PoolMeta, new_accumulator, codes, parse_big_int, to_lower, apply_swap, add_event, SwapEventData,
  Error, Option, TypedEventRecord, Result, Text, observe, Accumulator, abs_add, apply_amounts,
}

-- What a swap with these amounts should add, in the units of each token.
abbrev pub fee_on : ℤ → ℤ → ℕ → ℕ
fee_on paid received rate =
    if is_positive paid && is_negative received then abs paid * rate / 1_000_000 else 0

pub record Shows (a : Accumulator) (count v0 v1 f0 f1 : ℕ) : Type 0 where
  pub shows_count : a.swap_count ≡ count % 2 ^ 64
  pub shows_volume0 : a.volume0 ≡ pos v0
  pub shows_volume1 : a.volume1 ≡ pos v1
  pub shows_fee0 : a.fee0 ≡ pos f0
  pub shows_fee1 : a.fee1 ≡ pos f1

apply_amounts-Shows :
    (x y : ℤ) (a : Accumulator) (n v0 v1 f0 f1 : ℕ)
    → Shows a n v0 v1 f0 f1
    → Shows
        (apply_amounts x y a)
        (n + 1)
        (v0 + abs x)
        (v1 + abs y)
        (f0 + fee_on x y a.pool_meta.fee)
        (f1 + fee_on y x a.pool_meta.fee)
unfolding apply_amounts abs_add
apply_amounts-Shows (pos zero) y a n v0 v1 f0 f1 h = ground arith
apply_amounts-Shows (pos (suc x)) (pos zero) a n v0 v1 f0 f1 h = ground arith
apply_amounts-Shows (pos (suc x)) (pos (suc y)) a n v0 v1 f0 f1 h = ground arith
apply_amounts-Shows (pos (suc x)) (negsuc y) a n v0 v1 f0 f1 h = ground arith
apply_amounts-Shows (negsuc x) (pos zero) a n v0 v1 f0 f1 h = ground arith
apply_amounts-Shows (negsuc x) (pos (suc y)) a n v0 v1 f0 f1 h = ground arith
apply_amounts-Shows (negsuc x) (negsuc y) a n v0 v1 f0 f1 h = ground arith

abbrev pub both : Result Error ℤ → Result Error ℤ → Option (ℤ × ℤ)
both (ok x) (ok y) = some (x, y)
both (ok x) (err e) = none
both (err e) _ = none

abbrev add_some : Option (ℤ × ℤ) → List (ℤ × ℤ) → List (ℤ × ℤ)
add_some none ps = ps
add_some (some p) ps = p ∷ ps

abbrev pub credit : Option (ℤ × ℤ) → Accumulator → Accumulator
credit none a = a
credit (some (x, y)) a = apply_amounts x y a

apply_swap-credit :
    (s : SwapEventData) (a : Accumulator)
    → (apply_swap s a).1 ≡ credit (both (parse_big_int s.amount0) (parse_big_int s.amount1)) a
unfolding apply_swap
apply_swap-credit s a = ground arith

-- The sum of a quantity over the amounts of swaps.
abbrev pub sum_over : (ℤ → ℤ → ℕ) → List (ℤ × ℤ) → ℕ
sum_over f [] = 0
sum_over f ((x, y) ∷ ps) = f x y + sum_over f ps

-- What an accumulator of a pool with this fee shows, moved on by the sums over a list of swaps.
abbrev ShowsWith : ℕ → Accumulator → List (ℤ × ℤ) → ℕ → ℕ → ℕ → ℕ → ℕ → Type 0
ShowsWith fee a ps n v0 v1 f0 f1 =
    Shows a (n + length ps) (v0 + sum_over (λ x y. abs x) ps) (v1 + sum_over (λ x y. abs y) ps)
      (f0 + sum_over (λ x y. fee_on x y fee) ps) (f1 + sum_over (λ x y. fee_on y x fee) ps)

ShowsWith-nil :
    (fee : ℕ) (a : Accumulator) (n v0 v1 f0 f1 : ℕ)
    → Shows a n v0 v1 f0 f1
    → ShowsWith fee a [] n v0 v1 f0 f1
ShowsWith-nil fee a n v0 v1 f0 f1 h =
    rw (add-zero n, add-zero v0, add-zero v1, add-zero f0, add-zero f1) h

ShowsWith-cons :
    (fee : ℕ) (a : Accumulator) (x y : ℤ) (ps : List (ℤ × ℤ)) (n v0 v1 f0 f1 : ℕ)
    → ShowsWith fee a ps
        (n + 1)
        (v0 + abs x)
        (v1 + abs y)
        (f0 + fee_on x y fee)
        (f1 + fee_on y x fee)
    → ShowsWith fee a ((x, y) ∷ ps) n v0 v1 f0 f1
ShowsWith-cons fee a x y ps n v0 v1 f0 f1 h =
    let count : n + suc (length ps) ≡ n + 1 + length ps = omega arith in
    rw count (simp (← add_assoc) h)

observe-Shows :
    (r : TypedEventRecord) (a : Accumulator) (n v0 v1 f0 f1 : ℕ)
    → Shows a n v0 v1 f0 f1
    → Shows (observe r a) n v0 v1 f0 f1
unfolding observe
observe-Shows r a n v0 v1 f0 f1 h = ground arith

observe-meta : (r : TypedEventRecord) (a : Accumulator) → (observe r a).pool_meta ≡ a.pool_meta
unfolding observe
observe-meta r a = ground arith

apply_amounts-meta : (x y : ℤ) (a : Accumulator) → (apply_amounts x y a).pool_meta ≡ a.pool_meta
unfolding apply_amounts
apply_amounts-meta x y a = ground arith

module _ (unmarshal_swap : Text → Option SwapEventData) where
  -- The amounts of an event that counts as a swap: its name is "swap" in some case, its payload is
  -- one of a swap, and both amounts are decimal numbers or empty.
  unfoldable pub swap_of : TypedEventRecord → Option (ℤ × ℤ)
  swap_of r =
      if to_lower r.event_name == codes "swap"
      then (elim (unmarshal_swap r.decoded) [
        | none ↦ none
        | some s ↦ both (parse_big_int s.amount0) (parse_big_int s.amount1)
      ])
      else none

  abbrev pub swaps_of : List TypedEventRecord → List (ℤ × ℤ)
  swaps_of [] = []
  swaps_of (r ∷ rs) = add_some (swap_of r) (swaps_of rs)

  -- `AddEvent` for event after event, going on after an error as `Run` does.
  abbrev pub add_events : List TypedEventRecord → Accumulator → Accumulator
  add_events [] a = a
  add_events (r ∷ rs) a = add_events rs (add_event unmarshal_swap r a).1

  pub add_event-credit :
      (r : TypedEventRecord) (a : Accumulator)
      → (add_event unmarshal_swap r a).1 ≡ credit (swap_of r) (observe r a)
  unfolding add_event swap_of
  add_event-credit r a = elim (Option-cases (unmarshal_swap r.decoded)) [
    | inl e ↦ ground arith
    | inr (s, e) ↦ ground (arith, apply_swap-credit s (observe r a))
  ]

  -- The claim for the events behind the first, at any accumulator.
  abbrev Onwards : ℕ → List TypedEventRecord → Type 0
  Onwards fee rs =
      (a : Accumulator) (n v0 v1 f0 f1 : ℕ)
      → a.pool_meta.fee ≡ fee
      → Shows a n v0 v1 f0 f1
      → ShowsWith fee (add_events rs a) (swaps_of rs) n v0 v1 f0 f1

  credit-Onwards :
      (fee : ℕ) (rs : List TypedEventRecord) (o : Option (ℤ × ℤ)) (a : Accumulator)
      (n v0 v1 f0 f1 : ℕ)
      → Onwards fee rs
      → a.pool_meta.fee ≡ fee
      → Shows a n v0 v1 f0 f1
      → ShowsWith fee (add_events rs (credit o a)) (add_some o (swaps_of rs)) n v0 v1 f0 f1
  credit-Onwards fee rs none a n v0 v1 f0 f1 ih e h = ih a n v0 v1 f0 f1 e h
  credit-Onwards fee rs (some (x, y)) a n v0 v1 f0 f1 ih e h =
      ShowsWith-cons fee (add_events rs (apply_amounts x y a)) x y (swaps_of rs) n v0 v1 f0 f1 (
        ih (apply_amounts x y a) (n + 1) (v0 + abs x) (v1 + abs y) (f0 + fee_on x y fee)
          (f1 + fee_on y x fee) (ap (λ (m : PoolMeta). m.fee) (apply_amounts-meta x y a) ∙ e)
          (subst
            (λ k.
              Shows (apply_amounts x y a) (n + 1) (v0 + abs x) (v1 + abs y) (f0 + fee_on x y k)
                (f1 + fee_on y x k))
            e (apply_amounts-Shows x y a n v0 v1 f0 f1 h)))

  add_events-Onwards : (fee : ℕ) (rs : List TypedEventRecord) → Onwards fee rs
  add_events-Onwards fee [] a n v0 v1 f0 f1 e h = ShowsWith-nil fee a n v0 v1 f0 f1 h
  add_events-Onwards fee (r ∷ rs) a n v0 v1 f0 f1 e h = rw (add_event-credit r a) (
      credit-Onwards fee rs (swap_of r) (observe r a) n v0 v1 f0 f1 (add_events-Onwards fee rs)
        (ap (λ (m : PoolMeta). m.fee) (observe-meta r a) ∙ e) (observe-Shows r a n v0 v1 f0 f1 h))

  -- A fresh accumulator that is given events counts the swaps among them (in uint64), and holds the
  -- exact sums: of the absolute amounts of each token as volumes, and, of each token, of the fee on
  -- the amount paid in, rounded down swap by swap, where the other token was paid out.
  pub add_events-totals :
      (r : TypedEventRecord) (window_start window_end : ℕ) (rs : List TypedEventRecord)
      → let a = add_events rs (new_accumulator r window_start window_end) in
        let ps = swaps_of rs in
        (a.swap_count ≡ length ps % 2 ^ 64)
        × (a.volume0 ≡ pos (sum_over (λ x y. abs x) ps))
        × (a.volume1 ≡ pos (sum_over (λ x y. abs y) ps))
        × (a.fee0 ≡ pos (sum_over (λ x y. fee_on x y r.pool_meta.fee) ps))
        × (a.fee1 ≡ pos (sum_over (λ x y. fee_on y x r.pool_meta.fee) ps))
  add_events-totals r ws we rs =
      let s =
        add_events-Onwards r.pool_meta.fee rs (new_accumulator r ws we) 0 0 0 0 0
          (unfold new_accumulator in refl) (unfold new_accumulator in ground arith) in
      (
        (simp zero-add at s.shows_count),
        (simp zero-add at s.shows_volume0),
        (simp zero-add at s.shows_volume1),
        (simp zero-add at s.shows_fee0),
        (simp zero-add at s.shows_fee1),
      )
