-- ===== src/Examples/Suites.antt =====
-- The unit tests on a runtime whose timers are exact.
use healthkit.Base.{◌+◌, ◌≡◌, [], ◌∷◌, refl, All, arith}
use healthkit.Async.{Time, Async, done, pure, ◌>>=◌}
use healthkit.UnitTests.Harness.{Sleep, Passes}
use healthkit.UnitTests.Suite.{registry_tests, registry_tests-Passes}
use healthkit.Routes.{Handler, Router, Response, empty, internal_server_error}
use healthkit.UnitTests.Probing.{Dispatch}
use healthkit.UnitTests.ProbingPasses.{axum_tests, axum_tests-Passes}
use healthkit.Examples.Fixtures.{tireless, with_metrics}

abbrev exact_sleep : Sleep 0
exact_sleep = record {
  sleep = λ d now. done (now + d) tt;
  sleep_done = λ d now. (now + d, omega arith, omega arith, refl);
}

registry_tests-Passes_example :
    All (λ test. Passes (test 7)) (registry_tests tireless with_metrics exact_sleep)
registry_tests-Passes_example =
    registry_tests-Passes tireless with_metrics exact_sleep 7 (λ t. refl) (omega arith)

-- A router that asks its first route.
abbrev first_get : Router → Handler
first_get [] =
    λ s now. done now (record { status = internal_server_error; headers = []; body = empty }, [])
first_get (route ∷ routes) = route.get

abbrev without_body : Async Response → Async Response
without_body get = do res ← get; pure (record res { body = empty })

without_body-done :
    (get : Async Response) (now t : Time) (response : Response)
    → get now ≡ done t response
    → without_body get now ≡ done t (record response { body = empty })
without_body-done get now t response e = rw e refl

abbrev dispatch : Dispatch
dispatch = record {
  oneshot = λ router path. first_get router;
  oneshot_get = λ path get. refl;
  oneshot_of = λ get. get;
  oneshot_of_get = λ get. refl;
  oneshot_head = without_body;
  oneshot_head_done = without_body-done;
}

axum_tests-Passes_example :
    All (λ test. Passes (test 7)) (axum_tests tireless with_metrics dispatch)
axum_tests-Passes_example = axum_tests-Passes tireless with_metrics dispatch 7 (λ t. refl)
