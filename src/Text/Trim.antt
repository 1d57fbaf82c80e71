-- ===== src/Text/Trim.antt =====
-- What is left after trimming is trimmed.
use liquidity_scope.Prelude.{
  ℕ, ◌≡◌, refl, inl, inr, Bool, true, false, not, ◌&&◌, [], ◌∷◌, arith, nat_eq, list_eq, pair_eq,
  if◌then◌else◌, Bool-cases, is_empty,
}
use liquidity_scope.Text.{Text, is_space, trim_left, trim_right, trim_space}

-- The text neither begins nor ends with white space.
abbrev pub starts_with_space : Text → Bool
starts_with_space [] = false
starts_with_space (c ∷ s) = is_space c

trim_left-head : (s : Text) → starts_with_space (trim_left s) ≡ false
unfolding trim_left
trim_left-head [] = refl
trim_left-head (c ∷ s) = elim (Bool-cases (is_space c)) [
  | inl e ↦ rw e (trim_left-head s)
  | inr e ↦ rw e e
]

trim_left_stays : (s : Text) → starts_with_space s ≡ false → trim_left s ≡ s
unfolding trim_left
trim_left_stays [] h = refl
trim_left_stays (c ∷ s) h = rw h

trim_right-head :
    (s : Text) → starts_with_space s ≡ false → starts_with_space (trim_right s) ≡ false
unfolding trim_right
trim_right-head [] h = refl
trim_right-head (c ∷ s) h = ground arith

trim_right_cons :
    (c : ℕ) (s : Text)
    → trim_right (c ∷ s) ≡ (if is_empty (trim_right s) && is_space c then [] else c ∷ trim_right s)
unfolding trim_right
trim_right_cons c s = refl

trim_right_idem : (s : Text) → trim_right (trim_right s) ≡ trim_right s
trim_right_idem [] = unfold trim_right in refl
trim_right_idem (c ∷ s) = elim (Bool-cases (is_empty (trim_right s) && is_space c)) [
  | inl e ↦ rw (trim_right_cons c s, e) (unfold trim_right in refl)
  | inr e ↦ rw (trim_right_cons c s, e, trim_right_cons c (trim_right s), trim_right_idem s, e)
]

pub trim_space_idem : (s : Text) → trim_space (trim_space s) ≡ trim_space s
trim_space_idem s =
    unfold trim_space in
    rw
      (trim_left_stays (trim_right (trim_left s))
        (trim_right-head (trim_left s) (trim_left-head s)))
      (trim_right_idem (trim_left s))

-- No byte is white space.
abbrev pub spaceless : Text → Bool
spaceless [] = true
spaceless (c ∷ s) = not (is_space c) && spaceless s

trim_right-spaceless : (s : Text) → spaceless s ≡ true → trim_right s ≡ s
trim_right-spaceless [] h = unfold trim_right in refl
trim_right-spaceless (c ∷ s) h =
    let ih : spaceless s ≡ true → trim_right s ≡ s = trim_right-spaceless s in
    rw (trim_right_cons c s) (ground (arith, ih))

spaceless-head : (s : Text) → spaceless s ≡ true → starts_with_space s ≡ false
spaceless-head [] h = refl
spaceless-head (c ∷ s) h = ground arith

-- A text without white space is left as it is.
pub trim_space-spaceless : (s : Text) → spaceless s ≡ true → trim_space s ≡ s
trim_space-spaceless s h =
    unfold trim_space in rw (trim_left_stays s (spaceless-head s h)) (trim_right-spaceless s h)
