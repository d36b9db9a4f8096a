-- ===== src/Errors/RoundTrip.antt =====
-- src/error.rs: the text of an error determines the error, the deadline of a timeout included.
use healthkit.Base.{
  ◌/◌, ◌%◌, ◌<◌, ◌≡◌, refl, ◌∙◌, ap, inl, inr, Text, codes, [], ◌∷◌, Option, none, some, leb, ◌==◌,
  Bool-cases, if◌then◌else◌, arith,
}
use healthkit.Duration.{Duration, debug, fraction}
use healthkit.Duration.Digits.{fraction-IsDigit}
use healthkit.Duration.Values.{places-fraction}
use healthkit.Duration.Reading.{read_duration, in_nanos, read_with_unit}
use healthkit.Errors.{
  HealthCheckError, check_failed, check_panicked, check_timed_out, dependency_unavailable,
  shutting_down, error_text,
}

-- The parts of a duration are the ones that its Debug form writes.
pub read-debug : (d : Duration) → read_duration (debug d) ≡ some d
unfolding debug in_nanos
read-debug d = elim (Bool-cases (leb 1 (d / 1000000000))) [
  | inl secs ↦ rw secs (
      read_with_unit (d / 1000000000) _ (codes "s")
        (fraction-IsDigit 8 9 (d % 1000000000) (omega arith)) (refl, refl)
      ∙ ap some
          (rw (places-fraction 8 8 (d % 1000000000) (omega arith) (omega arith)) (omega arith)))
  | inr no_secs ↦
      let below : d < 1000000000 = ground arith in
      elim (Bool-cases (leb 1000000 (d % 1000000000))) [
        | inl ms ↦
            rw (no_secs, ms)
              (read_with_unit (d % 1000000000 / 1000000) _ (codes "ms")
                  (fraction-IsDigit 5 9 (d % 1000000000 % 1000000) (omega arith)) (refl, refl)
                ∙ ap some (
                    rw (places-fraction 5 8 (d % 1000000000 % 1000000) (omega arith) (omega arith))
                      (omega arith)))
        | inr no_ms ↦ elim (Bool-cases (leb 1000 (d % 1000000000))) [
          | inl us ↦
              rw (no_secs, no_ms, us)
                (read_with_unit (d % 1000000000 / 1000) _ (codes "µs")
                    (fraction-IsDigit 2 9 (d % 1000000000 % 1000) (omega arith)) (refl, refl)
                  ∙ ap some (
                      rw (places-fraction 2 8 (d % 1000000000 % 1000) (omega arith) (omega arith))
                        (omega arith)))
          | inr no_us ↦
              rw (no_secs, no_ms, no_us)
                (read_with_unit (d % 1000000000) (fraction 9 0 1) (codes "ns")
                    (fraction-IsDigit 0 9 0 (omega arith)) (refl, refl)
                  ∙ ap some (omega arith))
        ]
      ]
]

-- What is behind a prefix.
unfoldable pub strip : Text → Text → Option Text
strip [] s = some s
strip (p ∷ prefix) [] = none
strip (p ∷ prefix) (c ∷ s) = let rest = strip prefix s in if p == c then rest else none

abbrev timed_out_of : Option Duration → Option HealthCheckError
timed_out_of none = none
timed_out_of (some d) = some (check_timed_out d)

-- The first reading that there is.
abbrev first : Option HealthCheckError → Option HealthCheckError → Option HealthCheckError
first none other = other
first (some e) other = some e

abbrev behind : Text → (Text → Option HealthCheckError) → Text → Option HealthCheckError
behind prefix f s = elim (strip prefix s) [ none ↦ none | some rest ↦ f rest ]

-- A reader of error texts.
unfoldable pub read_error : Text → Option HealthCheckError
unfolding strip read_duration
read_error s = first (behind (codes "health check failed: ") (λ m. some (check_failed m)) s) (
    first (behind (codes "health check panicked: ") (λ m. some (check_panicked m)) s) (
      first (behind (codes "health check timed out after ") (λ t. timed_out_of (read_duration t)) s)
        (first (behind (codes "dependency unavailable: ") (λ m. some (dependency_unavailable m)) s)
          (behind (codes "service is shutting down") (λ rest. some shutting_down) s))))

-- The text of each error reads as that error, with its message or its deadline: two errors with the
-- same text are equal.
pub read_error-error_text : (e : HealthCheckError) → read_error (error_text e) ≡ some e
unfolding read_error error_text
read_error-error_text (check_failed m) = refl
read_error-error_text (check_panicked m) = refl
read_error-error_text (check_timed_out d) = rw (read-debug d) refl
read_error-error_text (dependency_unavailable m) = refl
read_error-error_text shutting_down = refl
