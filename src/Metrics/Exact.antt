-- ===== src/Metrics/Exact.antt =====
-- Numbers that meet what is assumed of `f64`: exact decimal fractions.
use healthkit.Base.{ℕ, ◌*◌, ◌^◌, ◌≤◌, ◌<◌, ◌≡◌, refl, Text, [], ◌∷◌, All, leb, arith}
use healthkit.Duration.{Duration, decimal}
use healthkit.Duration.Digits.{IsDecimal, decimal-IsDecimal}
use healthkit.Metrics.Floats.{Float, IsPlain, IsBound}

plain : (s : Text) → All IsDecimal s → All IsPlain s
plain [] h = tt
plain (c ∷ s) h = (ground arith, plain s h.1)

pub decimal-plain : (x : ℕ × ℕ) → All IsPlain (decimal x.0 x.1)
decimal-plain x = plain (decimal x.0 x.1) (decimal-IsDecimal x.0 x.1)

pub exact-lit : (m k : ℕ) → m < 10 ^ 15 → k ≤ 9 → decimal m k ≡ decimal m k
exact-lit m k h h' = refl

pub exact-secs :
    (d : Duration) (m k : ℕ)
    → IsBound m k
    → leb (d * 10 ^ k) (m * 10 ^ 9) ≡ leb (d * 10 ^ k) (m * 10 ^ 9)
exact-secs d m k h = refl

abbrev pub exact : Float
exact = record {
  F = ℕ × ℕ;
  lit = λ m k. (m, k);
  as_secs_f64 = λ d. (d, 9);
  le = λ x y. leb (x.0 * 10 ^ y.1) (y.0 * 10 ^ x.1);
  display = λ x. decimal x.0 x.1;
  secs_le_lit = exact-secs;
  display_lit = exact-lit;
  display_plain = decimal-plain;
}
