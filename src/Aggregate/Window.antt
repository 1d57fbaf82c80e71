-- ===== src/Aggregate/Window.antt =====
-- `windowStart` of internal/aggregate/aggregator.go, and the end that `Run` gives a window.
use liquidity_scope.Prelude.{
  ℕ, ◌+◌, ◌-◌, ◌*◌, ◌/◌, ◌%◌, ◌^◌, ◌≤◌, ◌<◌, ◌≡◌, sym, ap, ◌∙◌, subst, ◌↔◌, arith, nat_eq, list_eq,
  pair_eq,
}
use native.Mathlib.Nat.{
  mod-lt, mod-le, div-add-mod, mul_comm, mul-mod_left, mod-eq_of_lt, mod-add-mod,
}

abbrev pub u64 : ℕ
u64 = 2 ^ 64

unfoldable pub window_start : ℕ → ℕ → ℕ
window_start ts window_sec = ts - ts % window_sec

-- `windowStart + a.cfg.WindowSeconds`, in uint64
unfoldable pub window_end : ℕ → ℕ → ℕ
window_end start window_sec = (start + window_sec) % u64

-- `start` is where the window of `ts` begins: a multiple of the window's length, not behind the
-- timestamp and less than one window in front of it.
abbrev pub IsWindow : ℕ → ℕ → ℕ → Type 0
IsWindow w start ts = (start % w ≡ 0) × (start ≤ ts) × (ts < start + w)

aligned : (ts w : ℕ) → window_start ts w ≡ w * (ts / w)
unfolding window_start
aligned ts w = omega (arith, div-add-mod ts w)

pub window_start-IsWindow : (ts w : ℕ) → 0 < w → IsWindow w (window_start ts w) ts
window_start-IsWindow ts w h = (
  rw (aligned ts w, mul_comm w (ts / w)) (mul-mod_left (ts / w) w),
  unfold window_start in omega arith,
  unfold window_start in omega (arith, mod-lt ts h, mod-le ts w),
)

offset_eq :
    (ts w start : ℕ) → start % w ≡ 0 → start ≤ ts → ts < start + w → window_start ts w ≡ start
unfolding window_start
offset_eq ts w start a lo hi =
    let d = ts - start in
    let e : start + d ≡ ts = omega arith in
    let f : d % w ≡ d = mod-eq_of_lt (omega arith) in
    let g : (0 + d) % w ≡ (start + d) % w =
      subst (λ z. (z + d) % w ≡ (start + d) % w) a (mod-add-mod start w d) in
    let h : ts % w ≡ d = ap (λ z. z % w) (sym e) ∙ (sym g ∙ (ap (λ z. z % w) (omega arith) ∙ f)) in
    omega (arith, h)

-- For windows of a length above 0: the start that the code gives a timestamp is the one multiple of
-- the length that is not behind the timestamp and less than one window in front of it.
pub window_start_iff : (ts w start : ℕ) → 0 < w → (window_start ts w ≡ start) ↔ IsWindow w start ts
window_start_iff ts w start h = (
  λ e. subst (λ s. IsWindow w s ts) e (window_start-IsWindow ts w h),
  λ (a, lo, hi). offset_eq ts w start a lo hi,
)
