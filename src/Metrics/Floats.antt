-- ===== src/Metrics/Floats.antt =====
-- What src/metrics.rs uses of `f64`: literals, `as_secs_f64`, `<=` and `{}`.
use healthkit.Base.{
  ℕ, ◌*◌, ◌%◌, ◌^◌, ◌≤◌, ◌<◌, ◌≡◌, ◌≢◌, ◌⊎◌, Bool, Text, leb, All, newline, quote, backslash,
}
use healthkit.Duration.{Duration, decimal}

-- A character that the text of a number may hold: nothing that a label value escapes.
abbrev pub IsPlain : ℕ → Type 0
IsPlain c = (c ≢ newline) × (c ≢ quote) × (c ≢ backslash)

-- A literal `m / 10 ^ k` of at most ten thousand, below one or a multiple of a half.
abbrev pub IsBound : ℕ → ℕ → Type 0
IsBound m k = ((m < 10 ^ k) ⊎ ((2 * m) % 10 ^ k ≡ 0)) × (m ≤ 10000 * 10 ^ k) × (k ≤ 9)

pub record Float : Type 1 where
  pub F : Type 0
  -- The literal of value m / 10 ^ k, rounded to the nearest double.
  pub lit : ℕ → ℕ → F
  -- `Duration::as_secs_f64`
  pub as_secs_f64 : Duration → F
  -- `<=`
  pub le : F → F → Bool
  -- `format!("{value}")`
  pub display : F → Text
  -- The seconds of a duration compare with such a literal as the numbers do: both are rounded
  -- monotonically, and nanoseconds are much coarser than the doubles up to ten thousand.
  pub secs_le_lit :
      (d : Duration) (m k : ℕ)
      → IsBound m k
      → le (as_secs_f64 d) (lit m k) ≡ leb (d * 10 ^ k) (m * 10 ^ 9)
  -- `{}` writes the shortest decimal that reads back, with no exponent: for at most fifteen
  -- digits, the literal itself.
  pub display_lit : (m k : ℕ) → m < 10 ^ 15 → k ≤ 9 → display (lit m k) ≡ decimal m k
  pub display_plain : (x : F) → All IsPlain (display x)
