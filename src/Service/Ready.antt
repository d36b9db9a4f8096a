-- ===== src/Service/Ready.antt =====
-- examples/k8s_service.rs: what each check of the service must find to pass.
use native.Mathlib.Decide.{dec_lt}
use healthkit.Base.{
  ◌-◌, ◌+◌, ◌<◌, ◌≤◌, ◌≡◌, refl, ◌↔◌, ◌⊎◌, inl, inr, true, false, Bool-cases, Text, codes, All,
  Option, none, some, ok, arith,
}
use healthkit.Async.{Time, done}
use healthkit.Async.Runtime.{Runtime}
use healthkit.Duration.{Duration, from_secs, from_millis}
use healthkit.Types.{HealthStatus, healthy, degraded}
use healthkit.Registry.{RegisteredCheck}
use healthkit.Registry.Passing.{Passes}
use healthkit.Routes.{default_config}
use healthkit.Routes.Readiness.{Accepted}
use healthkit.Checks.Redis
use healthkit.Checks.Sqlx
use healthkit.Checks.RedisOutcomes
use healthkit.Checks.SqlxOutcomes
use healthkit.Service.Setup.{AtomicBool, initialized_check, draining_check}
use healthkit.Service.Wiring.{database, cache, init, drain}

-- The deadline of the registry and of both probes.
abbrev pub deadline : Duration
deadline = from_secs 2

-- A reply in time has a status, and one that readiness accepts by default.
grade_of :
    (warn took : Duration)
    → (s : HealthStatus) × (((s ≡ healthy) × (took ≤ warn)) ⊎ ((s ≡ degraded) × (warn < took)))
      × Accepted default_config s
unfolding default_config
grade_of warn took = elim (dec_lt warn took) [
  | yes slow ↦ (degraded, inr (refl, slow), refl)
  | no fast ↦ (healthy, inl (refl, omega arith), tt)
]

module _ (now : Time) where
  -- The check returned a status other than `unhealthy` before the deadline.
  abbrev pub Ok : RegisteredCheck → Type 0
  Ok = Passes (Accepted default_config) deadline now

  pub drain_iff : (draining : AtomicBool) → Ok (drain draining) ↔ (draining now ≡ false)
  unfolding draining_check
  drain_iff draining = elim (Bool-cases (draining now)) [
    | inl down ↦ rw down (λ p. cc, λ e. cc)
    | inr up ↦ rw up (λ p. refl, λ e. (now, healthy, refl, inr (omega arith), tt))
  ]

  pub init_iff : (initialized : AtomicBool) → Ok (init initialized) ↔ (initialized now ≡ true)
  unfolding initialized_check
  init_iff initialized = elim (Bool-cases (initialized now)) [
    | inl up ↦ rw up (λ p. refl, λ e. (now, healthy, refl, inr (omega arith), tt))
    | inr down ↦ rw down (λ p. cc, λ e. cc)
  ]

  module _ (rt : Runtime) (redis : Redis.RedisClient) where
    abbrev pub CacheReady : Option Text → Type 0
    CacheReady none = Unit
    CacheReady (some url) =
        (t : Time) × (Redis.ping redis url deadline now ≡ done t (ok (codes "PONG")))
        × (t < now + deadline)

    pub cache_iff :
        (url : Option Text) → rt.accepts now ≡ true → All Ok (cache rt redis url) ↔ CacheReady url
    unfolding Redis.new
    cache_iff none up = (λ h. tt, λ h. tt)
    cache_iff (some url) up =
        let self = Redis.new url deadline 500 in
        (
          λ ((t, s, e, i, a), rest).
              let (pong, soon, g) = (RedisOutcomes.check_ok_iff rt redis self now t s up).0 e in
              (t, pong, soon),
          λ (t, pong, soon).
              let (s, g, a) = grade_of (from_millis 500) (t - now) in
              (
                (
                  t,
                  s,
                  (RedisOutcomes.check_ok_iff rt redis self now t s up).1 (pong, soon, g),
                  inr soon,
                  a,
                ),
                tt,
              ),
        )

  module _ (rt : Runtime) (db : Sqlx.Database) (pool : db.Pool) where
    abbrev pub DatabaseReady : Type 0
    DatabaseReady =
        (t : Time) × ((q : db.QueryResult) × (db.execute Sqlx.probe_query pool now ≡ done t (ok q)))
        × (t < now + deadline)

    pub database_iff :
        SqlxOutcomes.AnswersOrLate rt db
          (Sqlx.new db pool deadline 500)
          now
          (db.execute Sqlx.probe_query pool now)
        → Ok (database rt db pool) ↔ DatabaseReady
    unfolding Sqlx.new
    database_iff h =
        let self = Sqlx.new db pool deadline 500 in
        (
          λ (t, s, e, i, a).
              let (answered, soon, g) = (SqlxOutcomes.check-Graded rt db self now t s h).0 e in
              (t, answered, soon),
          λ (t, answered, soon).
              let (s, g, a) = grade_of (from_millis 500) (t - now) in
              (
                t,
                s,
                (SqlxOutcomes.check-Graded rt db self now t s h).1 (answered, soon, g),
                inr soon,
                a,
              ),
        )
