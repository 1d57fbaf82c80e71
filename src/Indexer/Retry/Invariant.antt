-- ===== src/Indexer/Retry/Invariant.antt =====
-- What attempts and waits keep true, `withRetry` keeps true.
use liquidity_scope.Prelude.{
  Result-cases, ℕ, zero, suc, ◌*◌, ◌%◌, ◌^◌, ◌≡◌, inl, inr, Bool, nat_eq, list_eq, pair_eq, Result,
  ok, Bool-cases,
}
use liquidity_scope.Prelude.Int.{ℤ}
use liquidity_scope.Errors.{Error}
use liquidity_scope.Indexer.Retry.{retry_loop, with_retry, retries_of, first_delay}

module _ {S A : Type 0} (wait : ℕ → S → Bool × S) (attempt : S → Result Error A × S)
    (I : S → Type 0) (Q : A → Type 0) (attempts : (s : S) → I s → I (attempt s).1)
    (answers : (s : S) (a : A) → I s → (attempt s).0 ≡ ok a → Q a)
    (waits : (delay : ℕ) (s : S) → I s → I (wait delay s).1) where
  retry_loop_keeps :
      (left delay : ℕ) (s : S)
      → I s
      → I (retry_loop wait attempt left delay s).1
        × ((a : A) → (retry_loop wait attempt left delay s).0 ≡ ok a → Q a)
  unfolding retry_loop
  retry_loop_keeps zero delay s h = (attempts s h, λ a e. answers s a h e)
  retry_loop_keeps (suc left) delay s h =
      let h1 = attempts s h in
      let (stopped, s2) = wait delay (attempt s).1 in
      let h2 = waits delay (attempt s).1 h1 in
      elim (Result-cases (attempt s).0) [
        | inr (a, e) ↦ rw (e, retry_loop) (h1, λ b f. answers s b h (rw e f))
        | inl (x, e) ↦ elim (Bool-cases stopped) [
          | inl f ↦ rw (e, f, retry_loop) (h2, λ b g. absurd (cc g))
          | inr f ↦ rw (e, f, retry_loop) (retry_loop_keeps left (delay * 2 % 2 ^ 64) s2 h2)
        ]
      ]

  pub with_retry_keeps :
      (max_retries : ℤ) (base_delay : ℕ) (s : S)
      → I s
      → I (with_retry wait attempt max_retries base_delay s).1
        × ((a : A) → (with_retry wait attempt max_retries base_delay s).0 ≡ ok a → Q a)
  unfolding with_retry
  with_retry_keeps max_retries base_delay s h =
      retry_loop_keeps (retries_of max_retries) (first_delay base_delay) s h
