-- ===== src/Duration/Reading.antt =====
-- A reader of the Debug form of a duration: the text determines the duration.
use healthkit.Base.{
  ℕ, ◌+◌, ◌*◌, ◌≡◌, refl, ◌∙◌, ap, Bool, true, false, Text, codes, [], ◌∷◌, ◌++◌, append_assoc,
  append-nil, All, Option, none, some, leb, ◌&&◌, ◌==◌, if◌then◌else◌, arith,
}
use healthkit.Duration.Decimal.{digits, format, point}
use healthkit.Duration.Digits.{IsDigit, format-IsDigit}
use healthkit.Duration.Values.{value, places, value-format}

abbrev digit : ℕ → Bool
digit c = leb 48 c && leb c 57

-- The leading digits, behind those already seen, and the text behind them.
unfoldable pub span : Text → Text → Text × Text
span seen [] = (seen, [])
span seen (c ∷ s) = let more = span (seen ++ c ∷ []) s in if digit c then more else (seen, c ∷ s)

-- Nanoseconds, from the whole number of a unit, the digits behind the point, and the unit.
unfoldable pub in_nanos : ℕ → Text → Text → Option ℕ
in_nanos whole rest (c ∷ []) = if c == b's' then some (whole * 1000000000 + places 9 rest) else none
in_nanos whole rest (c ∷ d ∷ []) =
    if d == b's'
    then (if c == b'm'
        then some (whole * 1000000 + places 6 rest)
        else if c == 181
        then some (whole * 1000 + places 3 rest)
        else if c == b'n'
        then some whole
        else none)
    else none
in_nanos whole rest _ = none

unfoldable pub behind_whole : ℕ → Text → Option ℕ
unfolding in_nanos span
behind_whole whole [] = none
behind_whole whole (c ∷ s) =
    let with_places = (let (places, unit) = span [] s in in_nanos whole places unit) in
    if c == b'.' then with_places else in_nanos whole [] (c ∷ s)

unfoldable pub read_duration : Text → Option ℕ
unfolding span behind_whole
read_duration s = let (digits, rest) = span [] s in behind_whole (value 0 digits) rest

read_tests :
    (read_duration (codes "1.5s") ≡ some 1500000000)
    × (read_duration (codes "2.05µs") ≡ some 2050)
    × (read_duration (codes "100ms") ≡ some 100000000)
    × (read_duration (codes "17ns") ≡ some 17)
unfolding read_duration
read_tests = (refl, refl, refl, refl)

-- A text that no digit begins.
abbrev pub NoDigit : Text → Type 0
NoDigit [] = Unit
NoDigit (c ∷ s) = digit c ≡ false

span-append :
    (s seen rest : Text) → All IsDigit s → NoDigit rest → span seen (s ++ rest) ≡ (seen ++ s, rest)
unfolding span
span-append [] seen [] h n = rw append-nil
span-append [] seen (c ∷ rest) h n = rw (n, append-nil)
span-append (c ∷ s) seen rest h n =
    let d : digit c ≡ true = ground arith in
    rw d (span-append s (seen ++ c ∷ []) rest h.1 n ∙ ap (λ t. (t, rest)) (append_assoc seen _ s))

-- A unit: its first character is neither a digit nor the point.
abbrev pub IsUnit : Text → Type 0
IsUnit [] = ⊥
IsUnit (c ∷ s) = (digit c ≡ false) × ((c == b'.') ≡ false)

behind_whole-point :
    (whole : ℕ) (places unit : Text)
    → All IsDigit places
    → IsUnit unit
    → behind_whole whole (point places ++ unit) ≡ in_nanos whole places unit
unfolding behind_whole point
behind_whole-point whole [] [] h u = absurd u
behind_whole-point whole [] (c ∷ unit) h u = rw u.1
behind_whole-point whole (p ∷ places) [] h u = absurd u
behind_whole-point whole (p ∷ places) (c ∷ unit) h u =
    rw (span-append (p ∷ places) [] (c ∷ unit) h u.0)

NoDigit-point : (places unit : Text) → IsUnit unit → NoDigit (point places ++ unit)
unfolding point
NoDigit-point [] [] u = tt
NoDigit-point [] (c ∷ unit) u = u.0
NoDigit-point (p ∷ places) unit u = refl

-- A number, its places and its unit read as what they amount to.
pub read_with_unit :
    (whole : ℕ) (places unit : Text)
    → All IsDigit places
    → IsUnit unit
    → read_duration (format whole ++ point places ++ unit) ≡ in_nanos whole places unit
unfolding read_duration
read_with_unit whole places unit h u =
    rw
      (
        append_assoc (format whole) (point places) unit,
        span-append (format whole) [] (point places ++ unit) (format-IsDigit whole)
            (NoDigit-point places unit u),
        value-format whole,
      )
      (behind_whole-point whole places unit h u)
