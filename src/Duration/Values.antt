-- ===== src/Duration/Values.antt =====
-- The decimal texts have the value that they are written for: the fuel is enough.
use native.Mathlib.Nat.{mod-lt, div-add-mod'}
use healthkit.Base.{
  ℕ, zero, suc, ◌+◌, ◌-◌, ◌*◌, ◌/◌, ◌%◌, ◌^◌, ◌≤◌, ◌<◌, ◌≡◌, ◌∙◌, ap, inl, inr, Text, [], ◌∷◌, ltb,
  ◌==◌, false, Bool-cases, arith,
}
use healthkit.Duration.Decimal.{digits, format, fraction}
use healthkit.Duration.Digits.{tenth_pow, pow_pos}

-- The number that digits stand for, behind the ones already read.
abbrev pub value : ℕ → Text → ℕ
value n [] = n
value n (c ∷ s) = value (n * 10 + (c - b'0')) s

-- The number that digits behind a point stand for, at so many places.
abbrev pub places : ℕ → Text → ℕ
places zero s = 0
places (suc k) [] = 0
places (suc k) (c ∷ s) = (c - b'0') * 10 ^ k + places k s

value-digits : (fuel n : ℕ) (out : Text) → n < fuel → value 0 (digits fuel n out) ≡ value n out
unfolding digits
value-digits zero n out h = omega arith
value-digits (suc fuel) n out h = elim (Bool-cases (ltb n 10)) [
  | inl small ↦ rw small (ap (λ m. value m out) (omega arith))
  | inr large ↦
      let big : 10 ≤ n = ground arith in
      rw large (
        value-digits fuel (n / 10) ((b'0' + n % 10) ∷ out) (omega arith)
        ∙ ap (λ m. value m out) (omega arith))
]

-- The digits of a number read as the number.
pub value-format : (n : ℕ) → value 0 (format n) ≡ n
unfolding format
value-format n = value-digits (suc n) n [] (omega arith)

fraction_round :
    (fuel rest divisor : ℕ)
    → (rest == 0) ≡ false
    → fraction (suc (suc fuel)) rest divisor
      ≡ (b'0' + rest / divisor) ∷ fraction (suc fuel) (rest % divisor) (divisor / 10)
unfolding fraction
fraction_round fuel rest divisor more = rw more

-- A digit and the places behind it.
place_of :
    (j fuel rest : ℕ)
    → places (suc j) (fraction fuel (rest % 10 ^ suc j) (10 ^ j)) ≡ rest % 10 ^ suc j
    → (b'0' + rest / 10 ^ suc j - b'0') * 10 ^ suc j
        + places (suc j) (fraction fuel (rest % 10 ^ suc j) (10 ^ j))
      ≡ rest
place_of j fuel rest e =
    rw e
      (ap (λ q. q * 10 ^ suc j + rest % 10 ^ suc j) (omega arith) ∙ div-add-mod' rest (10 ^ suc j))

-- The digits behind the point read as the rest that they are written for.
pub places-fraction :
    (j fuel rest : ℕ)
    → j ≤ fuel
    → rest < 10 ^ suc j
    → places (suc j) (fraction (suc fuel) rest (10 ^ j)) ≡ rest
unfolding fraction
places-fraction zero fuel rest le h = elim (Bool-cases (rest == 0)) [
  | inl none_left ↦ rw none_left (ground arith)
  | inr more ↦ rw more (omega arith)
]
places-fraction (suc j) zero rest le h = omega arith
places-fraction (suc j) (suc fuel) rest le h = elim (Bool-cases (rest == 0)) [
  | inl none_left ↦ rw none_left (ground arith)
  | inr more ↦
      rw (fraction_round fuel rest (10 ^ suc j) more, tenth_pow)
        (place_of j (suc fuel) rest
          (places-fraction j fuel (rest % 10 ^ suc j) (omega arith) (mod-lt _ (pow_pos (suc j)))))
]
