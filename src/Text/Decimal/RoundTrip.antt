-- ===== src/Text/Decimal/RoundTrip.antt =====
-- What is printed is read back.
use liquidity_scope.Prelude.{
  ℕ, zero, suc, ◌+◌, ◌-◌, ◌*◌, ◌/◌, ◌%◌, ◌≤◌, ◌<◌, ◌≡◌, refl, ap, ◌∙◌, ◌≢◌, inl, inr, true, false,
  some, [], ◌∷◌, arith, ◌==◌, nat_eq, list_eq, pair_eq, Bool-cases, List-cases,
}
use liquidity_scope.Prelude.Int.{ℤ, pos, negsuc}
use liquidity_scope.Text.{Text}
use liquidity_scope.Text.Decimal.{
  pos, read_nat, ℤ, format_int, set_string, is_digit, read_digits, emit, format_nat,
}

read_digits_cons :
    (n c : ℕ) (s : Text) → c ≤ 9 → read_digits n ((b'0' + c) ∷ s) ≡ read_digits (n * 10 + c) s
unfolding read_digits
read_digits_cons n c s h =
    let d : is_digit (b'0' + c) ≡ true = ground arith in
    let e : b'0' + c - b'0' ≡ c = omega arith in rw (d, e)

emit_reads :
    (fuel n : ℕ) (out : Text) → n ≤ fuel → read_digits 0 (emit fuel n out) ≡ read_digits n out
unfolding emit
emit_reads zero n out h = let z : n ≡ 0 = omega arith in rw z
emit_reads (suc fuel) n out h = elim (Bool-cases (n == 0)) [
  | inl z ↦ let e : n ≡ 0 = ground arith in rw e
  | inr p ↦
      let e : n / 10 * 10 + n % 10 ≡ n = omega arith in
      let q : 0 < n = ground arith in
      rw p (
        emit_reads fuel (n / 10) ((b'0' + n % 10) ∷ out) (omega arith)
        ∙ (read_digits_cons (n / 10) (n % 10) out (omega arith)
            ∙ ap (λ (k : ℕ). read_digits k out) e))
]

emit-ne-nil : (fuel n c : ℕ) (out : Text) → (d : ℕ) × (s : Text) × (emit fuel n (c ∷ out) ≡ d ∷ s)
unfolding emit
emit-ne-nil zero n c out = (c, out, refl)
emit-ne-nil (suc fuel) n c out = elim (Bool-cases (n == 0)) [
  | inl z ↦ (c, out, rw z)
  | inr p ↦ rw p (emit-ne-nil fuel (n / 10) (b'0' + n % 10) (c ∷ out))
]

pub read_digits-format_nat : (n : ℕ) → read_digits 0 (format_nat n) ≡ some n
unfolding format_nat
read_digits-format_nat n = elim (Bool-cases (n == 0)) [
  | inl z ↦ let e : n ≡ 0 = ground arith in rw e (unfold read_digits in refl)
  | inr p ↦ rw p (emit_reads n n [] (omega arith) ∙ unfold read_digits in refl)
]

pub format_nat-ne-nil : (n : ℕ) → format_nat n ≢ []
unfolding format_nat emit
format_nat-ne-nil zero h = cc
format_nat-ne-nil (suc n) h =
    let (d, s, e) = emit-ne-nil n (suc n / 10) (b'0' + suc n % 10) [] in ground arith

-- Digits that are read begin with one, and so with no sign.
read_nat-digit : (c : ℕ) (s : Text) (n : ℕ) → read_digits 0 (c ∷ s) ≡ some n → is_digit c ≡ true
unfolding read_digits
read_nat-digit c s n h = ground arith

set_string-digits :
    (s : Text) (n : ℕ) → s ≢ [] → read_digits 0 s ≡ some n → set_string s ≡ some (pos n)
unfolding set_string
set_string-digits [] n some_digit h = absurd (some_digit refl)
set_string-digits (c ∷ s) n some_digit h =
    let d = read_nat-digit c s n h in
    let plus : (c == b'+') ≡ false = ground arith in
    let minus : (c == b'-') ≡ false = ground arith in rw (plus, minus, h)

read_nat-format_nat : (n : ℕ) → read_nat (format_nat n) ≡ some n
read_nat-format_nat n = elim (List-cases (format_nat n)) [
  | inl e ↦ absurd (format_nat-ne-nil n e)
  | inr (c, s, e) ↦ rw e (rw e at (read_digits-format_nat n))
]

pub set_string-format_int : (z : ℤ) → set_string (format_int z) ≡ some z
unfolding format_int
set_string-format_int (pos n) =
    set_string-digits (format_nat n) n (format_nat-ne-nil n) (read_digits-format_nat n)
set_string-format_int (negsuc n) = unfold set_string in rw (read_nat-format_nat (suc n))
