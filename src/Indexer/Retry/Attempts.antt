-- ===== src/Indexer/Retry/Attempts.antt =====
-- How often `withRetry` tries, and when that is enough.
use liquidity_scope.Prelude.{
  ℕ, zero, suc, ◌+◌, ◌*◌, ◌%◌, ◌^◌, ◌≤◌, ◌≡◌, Bool, false, arith, nat_eq, list_eq, pair_eq, Result,
  ok, is_ok,
}
use liquidity_scope.Prelude.Int.{ℤ}
use liquidity_scope.Errors.{Error}
use liquidity_scope.Indexer.Retry.{retries_of, first_delay, retry_loop, with_retry}

module _ {S A : Type 0} (wait : ℕ → S → Bool × S) (attempt : S → Result Error A × S) (count : S → ℕ)
    (counts : (s : S) → count (attempt s).1 ≡ count s + 1)
    (waits : (delay : ℕ) (s : S) → count (wait delay s).1 ≡ count s) where
  retry_loop-count :
      (left delay : ℕ) (s : S)
      → (count s + 1 ≤ count (retry_loop wait attempt left delay s).1)
        × (count (retry_loop wait attempt left delay s).1 ≤ count s + left + 1)
  unfolding retry_loop
  retry_loop-count zero delay s = omega (arith, counts s)
  retry_loop-count (suc left) delay s =
      let (r, s1) = attempt s in
      let (stopped, s2) = wait delay s1 in
      ground (arith, counts s, waits delay s1, retry_loop-count left (delay * 2 % 2 ^ 64) s2)

  -- If `count` counts the attempts, and no wait changes it: a call is tried at least once, and at
  -- most once more than the retries that are asked for.
  pub with_retry-count :
      (max_retries : ℤ) (base_delay : ℕ) (s : S)
      → (count s + 1 ≤ count (with_retry wait attempt max_retries base_delay s).1)
        × (count (with_retry wait attempt max_retries base_delay s).1
            ≤ count s + retries_of max_retries + 1)
  unfolding with_retry
  with_retry-count max_retries base_delay s =
      retry_loop-count (retries_of max_retries) (first_delay base_delay) s

module _ {S A : Type 0} (wait : ℕ → S → Bool × S) (attempt : S → Result Error A × S) where
  -- From this state the attempt after `n` failed ones gives `a`, and no wait between them is
  -- cancelled; the delays double.
  abbrev pub SucceedsAfter : ℕ → ℕ → S → A → Type 0
  SucceedsAfter zero delay s a = (attempt s).0 ≡ ok a
  SucceedsAfter (suc n) delay s a =
      (is_ok (attempt s).0 ≡ false)
      × ((wait delay (attempt s).1).0 ≡ false)
      × SucceedsAfter n (delay * 2 % 2 ^ 64) (wait delay (attempt s).1).1 a

  retry_loop-succeeds :
      (n left delay : ℕ) (s : S) (a : A)
      → n ≤ left
      → SucceedsAfter n delay s a
      → (retry_loop wait attempt left delay s).0 ≡ ok a
  unfolding retry_loop
  retry_loop-succeeds zero zero delay s a h k = k
  retry_loop-succeeds zero (suc left) delay s a h k = ground arith
  retry_loop-succeeds (suc n) zero delay s a h k = absurd (omega arith)
  retry_loop-succeeds (suc n) (suc left) delay s a h (failed, waited, later) = ground (
    arith,
    retry_loop-succeeds n left (delay * 2 % 2 ^ 64) (wait delay (attempt s).1).1 a (omega arith)
        later,
  )

  -- If the attempt after `n` failed ones would succeed, `n` is at most the number of retries
  -- allowed, and no wait between these attempts is cancelled, then the call succeeds with that
  -- answer.
  pub with_retry-succeeds :
      (n : ℕ) (max_retries : ℤ) (base_delay : ℕ) (s : S) (a : A)
      → n ≤ retries_of max_retries
      → SucceedsAfter n (first_delay base_delay) s a
      → (with_retry wait attempt max_retries base_delay s).0 ≡ ok a
  unfolding with_retry
  with_retry-succeeds n max_retries base_delay s a h k =
      retry_loop-succeeds n (retries_of max_retries) (first_delay base_delay) s a h k
