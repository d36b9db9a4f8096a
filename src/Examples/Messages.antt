-- ===== src/Examples/Messages.antt =====
-- src/error.rs: error texts at concrete errors.
use healthkit.Base.{◌≡◌, refl, codes, some}
use healthkit.Duration.{from_millis}
use healthkit.Errors.{check_timed_out, error_text}
use healthkit.Errors.RoundTrip.{read_error, read_error-error_text}

timeout_text :
    error_text (check_timed_out (from_millis 1500)) ≡ codes "health check timed out after 1.5s"
unfolding error_text healthkit.Duration.debug
timeout_text = refl

read_error-error_text_example :
    read_error (error_text (check_timed_out (from_millis 1500)))
    ≡ some (check_timed_out (from_millis 1500))
read_error-error_text_example = read_error-error_text (check_timed_out (from_millis 1500))
