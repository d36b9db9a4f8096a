-- ===== src/Duration/Digits.antt =====
-- The decimal texts hold nothing but digits and a point.
use native.Mathlib.Nat.{pow-suc, mod-lt}
use healthkit.Base.{
  ℕ, zero, suc, ◌+◌, ◌-◌, ◌*◌, ◌/◌, ◌%◌, ◌^◌, ◌≤◌, ◌<◌, ◌≡◌, refl, inl, inr, Text, [], ◌∷◌, All,
  All-append, ltb, ◌==◌, Bool-cases, arith,
}
use healthkit.Duration.Decimal.{digits, format, fraction, point, decimal}

abbrev pub IsDigit : ℕ → Type 0
IsDigit c = (48 ≤ c) × (c ≤ 57)

-- A digit or a point.
abbrev pub IsDecimal : ℕ → Type 0
IsDecimal c = (46 ≤ c) × (c ≤ 57)

digits-IsDigit : (fuel n : ℕ) (out : Text) → All IsDigit out → All IsDigit (digits fuel n out)
unfolding digits
digits-IsDigit zero n out h = h
digits-IsDigit (suc fuel) n out h = elim (Bool-cases (ltb n 10)) [
  | inl small ↦ rw small (ground arith, h)
  | inr large ↦ rw large (digits-IsDigit fuel (n / 10) ((b'0' + n % 10) ∷ out) (omega arith, h))
]

pub format-IsDigit : (n : ℕ) → All IsDigit (format n)
unfolding format
format-IsDigit n = digits-IsDigit (suc n) n [] tt

pub tenth_pow : (j : ℕ) → 10 ^ suc j / 10 ≡ 10 ^ j
tenth_pow j = rw pow-suc (omega arith)

quotient_digit : (rest divisor : ℕ) → rest < 10 * divisor → rest / divisor < 10
quotient_digit rest divisor h = grind arith

fraction_round :
    (fuel rest divisor : ℕ)
    → rest < 10 * divisor
    → All IsDigit (fraction fuel (rest % divisor) (divisor / 10))
    → All IsDigit (fraction (suc fuel) rest divisor)
unfolding fraction
fraction_round fuel rest divisor h rounds = elim (Bool-cases (rest == 0)) [
  | inl none_left ↦ rw none_left tt
  | inr more ↦
      let q : rest / divisor < 10 = quotient_digit rest divisor h in rw more (omega arith, rounds)
]

pub pow_pos : (j : ℕ) → 0 < 10 ^ j
pow_pos zero = omega arith
pow_pos (suc j) = rw pow-suc (omega (arith, pow_pos j))

pub fraction_zero : (fuel divisor : ℕ) → fraction fuel 0 divisor ≡ []
unfolding fraction
fraction_zero zero divisor = refl
fraction_zero (suc fuel) divisor = refl

-- The rest is below ten times the divisor in each round, so each quotient is a digit; when the
-- divisor has come to zero, nothing is left.
pub fraction-IsDigit :
    (j fuel rest : ℕ) → rest < 10 ^ suc j → All IsDigit (fraction fuel rest (10 ^ j))
fraction-IsDigit j zero rest h = unfold fraction in tt
fraction-IsDigit zero (suc fuel) rest h =
    let over : rest % 1 ≡ 0 = omega arith in
    fraction_round fuel rest 1 (omega arith) (rw (over, fraction_zero fuel 0) tt)
fraction-IsDigit (suc j) (suc fuel) rest h =
    fraction_round fuel rest (10 ^ suc j) (omega (arith, pow-suc 10 (suc j)))
      (rw tenth_pow (fraction-IsDigit j fuel (rest % 10 ^ suc j) (mod-lt _ (pow_pos (suc j)))))

weaken : (s : Text) → All IsDigit s → All IsDecimal s
weaken [] h = tt
weaken (c ∷ s) h = (omega arith, weaken s h.1)

point-IsDecimal : (s : Text) → All IsDigit s → All IsDecimal (point s)
unfolding point
point-IsDecimal [] h = tt
point-IsDecimal (c ∷ s) h = (omega arith, weaken (c ∷ s) h)

-- The text of a decimal fraction holds nothing but digits and a point.
pub decimal-IsDecimal : (m k : ℕ) → All IsDecimal (decimal m k)
unfolding decimal
decimal-IsDecimal m zero =
    All-append _ (format (m / 1)) _ (weaken _ (format-IsDigit (m / 1)))
      (unfold fraction point in tt)
decimal-IsDecimal m (suc j) =
    let e : suc j - 1 ≡ j = omega arith in
    rw e (
      All-append _ (format (m / 10 ^ suc j)) _ (weaken _ (format-IsDigit (m / 10 ^ suc j))) (
        point-IsDecimal _
          (fraction-IsDigit j (suc j) (m % 10 ^ suc j) (mod-lt _ (pow_pos (suc j))))))
