-- ===== src/Duration/Decimal.antt =====
-- Decimal texts: of an unsigned integer, as `{}` writes it, and of a decimal fraction.
use healthkit.Base.{
  ℕ, zero, suc, ◌+◌, ◌/◌, ◌%◌, Text, [], ◌∷◌, ltb, ◌==◌, ◌-◌, ◌^◌, ◌++◌, if◌then◌else◌,
}

-- The digits of `n` before `out`; the fuel is above `n`, and a round divides `n` by ten.
unfoldable pub digits : ℕ → ℕ → Text → Text
digits zero n out = out
digits (suc fuel) n out =
    let rest = digits fuel (n / 10) ((b'0' + n % 10) ∷ out) in
    if ltb n 10 then (b'0' + n) ∷ out else rest

unfoldable pub format : ℕ → Text
unfolding digits
format n = digits (suc n) n []

-- The digits behind the point: while the rest is not zero, and at most as many as the fuel.
unfoldable pub fraction : ℕ → ℕ → ℕ → Text
fraction zero rest divisor = []
fraction (suc fuel) rest divisor =
    let digits = (b'0' + rest / divisor) ∷ fraction fuel (rest % divisor) (divisor / 10) in
    if rest == 0 then [] else digits

unfoldable pub point : Text → Text
point [] = []
point (d ∷ ds) = b'.' ∷ d ∷ ds

-- The decimal text of m / 10 ^ k, with no zeros at its end behind the point.
unfoldable pub decimal : ℕ → ℕ → Text
unfolding format fraction point
decimal m k = format (m / 10 ^ k) ++ point (fraction k (m % 10 ^ k) (10 ^ (k - 1)))
