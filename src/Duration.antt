-- ===== src/Duration.antt =====
-- `std::time::Duration` as the crate uses it: a number of nanoseconds, and its Debug form, which
-- `{0:?}` of src/error.rs writes.
mod Decimal
pub mod Digits
pub mod Values
pub mod Reading
unfoldable pub use Decimal.{format, fraction, point, decimal}
use healthkit.Base.{
  ℕ, zero, suc, ◌+◌, ◌-◌, ◌*◌, ◌/◌, ◌%◌, ◌^◌, Bool, Text, codes, [], ◌∷◌, ◌++◌, leb, ◌==◌, refl,
  if◌then◌else◌, ◌≡◌,
}

abbrev pub Duration : Type 0
Duration = ℕ

abbrev pub nanos_per_sec : ℕ
nanos_per_sec = 1000000000

abbrev pub from_secs : ℕ → Duration
from_secs s = s * 1000000000

abbrev pub from_millis : ℕ → Duration
from_millis ms = ms * 1000000

-- `Duration::MAX`: the whole seconds fit in 64 bits.
abbrev pub max_duration : Duration
max_duration = 2 ^ 64 * 1000000000 - 1

unfoldable pub is_zero : Duration → Bool
is_zero d = d == 0

-- `fmt_decimal`: the whole part, the part behind the point over ten times the divisor, the unit.
with_unit : ℕ → ℕ → ℕ → Text → Text
with_unit whole rest divisor unit = format whole ++ point (fraction 9 rest divisor) ++ unit

-- `impl Debug for Duration`: the largest unit of which there is a whole one.
unfoldable pub debug : Duration → Text
unfolding with_unit format fraction point
debug d =
    let secs = d / 1000000000 in
    let nanos = d % 1000000000 in
    if leb 1 secs
    then with_unit secs nanos 100000000 (codes "s")
    else if leb 1000000 nanos
    then with_unit (nanos / 1000000) (nanos % 1000000) 100000 (codes "ms")
    else if leb 1000 nanos
    then with_unit (nanos / 1000) (nanos % 1000) 100 (codes "µs")
    else with_unit nanos 0 1 (codes "ns")

debug_tests :
    (debug (from_secs 5) ≡ codes "5s")
    × (debug (from_millis 100) ≡ codes "100ms")
    × (debug (from_millis 1500) ≡ codes "1.5s")
    × (debug 2050 ≡ codes "2.05µs")
    × (debug 0 ≡ codes "0ns")
unfolding debug
debug_tests = (refl, refl, refl, refl, refl)
