-- ===== src/Examples/Fixtures.antt =====
-- A runtime, checks and a registry that the examples share.
use healthkit.Base.{ℕ, ◌+◌, codes, [], ◌∷◌, none, some, Result, ok, err, true, ltb}
use healthkit.Async.{Async, done, panicked, hangs}
use healthkit.Async.Ideal.{ideal}
use healthkit.Async.Runtime.{Runtime}
use healthkit.Duration.{from_millis, from_secs}
use healthkit.Types.{HealthStatus, healthy, degraded}
use healthkit.Errors.{HealthCheckError, dependency_unavailable}
use healthkit.Registry.{RegisteredCheck, HealthRegistry, Store, Features}

-- The runtime shuts down an hour after the clock's start.
abbrev pub rt : Runtime
rt = ideal (λ now. ltb now (from_secs 3600))

-- One that does not shut down.
abbrev pub tireless : Runtime
tireless = ideal (λ now. true)

abbrev pub with_metrics : Features
with_metrics = record { metrics = true }

abbrev pub after :
    ℕ → Result HealthStatus HealthCheckError → Async (Result HealthStatus HealthCheckError)
after took outcome now = done (now + took) outcome

abbrev pub stuck : Async (Result HealthStatus HealthCheckError)
stuck now = hangs

abbrev pub crash : Async (Result HealthStatus HealthCheckError)
crash now = panicked now

abbrev pub db : RegisteredCheck
db = record { name = codes "db"; group = none; check_fn = after (from_millis 3) (ok healthy) }

abbrev pub cache : RegisteredCheck
cache = record {
  name = codes "cache";
  group = none;
  check_fn = after (from_millis 1) (err (dependency_unavailable (codes "connection refused")));
}

abbrev pub hanging : RegisteredCheck
hanging = record { name = codes "hanging"; group = none; check_fn = stuck }

abbrev pub migrations : RegisteredCheck
migrations = record {
  name = codes "migrations";
  group = some (codes "init");
  check_fn = after 0 (ok degraded);
}

abbrev pub crashing : RegisteredCheck
crashing = record { name = codes "crashing"; group = none; check_fn = crash }

abbrev pub store : Store
store = (db ∷ cache ∷ hanging ∷ migrations ∷ []) ∷ (db ∷ crashing ∷ []) ∷ (db ∷ []) ∷ []

abbrev pub registry : HealthRegistry
registry = record { checks = 0; default_timeout = from_secs 2 }

abbrev pub fragile : HealthRegistry
fragile = record { checks = 1; default_timeout = from_secs 2 }

abbrev pub small : HealthRegistry
small = record { checks = 2; default_timeout = from_secs 2 }
