-- ===== src/Indexer/Retry.antt =====
-- internal/indexer/retry.go: `withRetry`, over any state that the attempts and the waits change. A
-- delay is an int64 of nanoseconds, kept as its bit pattern.
pub mod Attempts
pub mod Invariant
use liquidity_scope.Prelude.{
  ℕ, zero, suc, ◌+◌, ◌-◌, ◌*◌, ◌/◌, ◌%◌, ◌^◌, ◌≤◌, ◌<◌, ◌≡◌, refl, sym, ap, ◌∙◌, subst, ◌≢◌, ◌↔◌,
  ◌⊎◌, inl, inr, Bool, true, false, not, ◌&&◌, ◌||◌, Option, none, some, List, [], ◌∷◌, ◌++◌, map,
  append-nil, append_assoc, arith, ltb, leb, ◌==◌, Eq, nat_eq, list_eq, pair_eq, beq_refl,
  if◌then◌else◌, Result, ok, err, is_ok, Bool-cases, Option-cases, length, is_empty, All, replicate,
  ne→beq_false, le→leb, lt→leb_false, le→ltb_false,
}
use liquidity_scope.Prelude.Int.{ℤ, pos, negsuc}
use liquidity_scope.Errors.{Error, cancelled}

-- `if maxRetries < 0 { maxRetries = 0 }`
abbrev pub retries_of : ℤ → ℕ
retries_of (pos n) = n
retries_of (negsuc n) = 0

-- `if baseDelay <= 0 { baseDelay = 100 * time.Millisecond }`
abbrev pub first_delay : ℕ → ℕ
first_delay base = if base == 0 || leb (2 ^ 63) base then 100 * 1_000_000 else base

module _ {S A : Type 0} (wait : ℕ → S → Bool × S) (attempt : S → Result Error A × S) where
  -- The loop, with the retries that are left. `wait` lets the delay pass, and says whether the
  -- context was cancelled meanwhile.
  unfoldable pub retry_loop : ℕ → ℕ → S → Result Error A × S
  retry_loop zero delay s = attempt s
  retry_loop (suc left) delay s =
      let (r, s1) = attempt s in
      let (stopped, s2) = wait delay s1 in
      let again = retry_loop left (delay * 2 % 2 ^ 64) s2 in
      elim r [ ok a ↦ (ok a, s1) | err e ↦ (if stopped then (err cancelled, s2) else again) ]

  -- `withRetry`
  unfoldable pub with_retry : ℤ → ℕ → S → Result Error A × S
  unfolding retry_loop
  with_retry max_retries base_delay s =
      retry_loop (retries_of max_retries) (first_delay base_delay) s
