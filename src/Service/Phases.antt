-- ===== src/Service/Phases.antt =====
-- examples/k8s_service.rs: the probes over the life of the service, before its initialization and
-- from the shutdown signal on.
use healthkit.Base.{
  ◌+◌, ◌≤◌, ◌≡◌, refl, ◌↔◌, ◌⊎◌, inl, inr, true, false, [], ◌∷◌, All, Bool, Bool-cases, List,
  Option, none, some, codes, Text, arith,
}
use healthkit.Async.{Time, done}
use healthkit.Async.Runtime.{Runtime}
use healthkit.Types.{healthy}
use healthkit.Registry.{
  HealthRegistry, RegisteredCheck, Store, Features, Emission, checks_of, members,
}
use healthkit.Registry.Sweeps.{AllAnswer}
use healthkit.Registry.Passing.{Passes}
use healthkit.Routes.{
  StatusCode, service_unavailable, Response, default_config, readiness_handler, startup_handler,
}
use healthkit.Routes.Startup.{startup_handler-Passes}
use healthkit.Checks.Redis
use healthkit.Checks.Sqlx
use healthkit.Checks.SqlxOutcomes
use healthkit.Service.Setup.{AtomicBool, initialized_check, setup}
use healthkit.Service.Shutdown.{Signals, shutdown_signal}
use healthkit.Service.Draining.{QuietSignals, Signalled, shutdown_signal_iff}
use healthkit.Service.Wiring.{init, registered, setup-Has}
use healthkit.Service.Ready.{deadline}
use healthkit.Service.Probes.{ends_soon, service_ready_iff}

-- The check of the group passes exactly once the flag is set.
init_healthy :
    (now : Time) (initialized : AtomicBool)
    → All (Passes (λ x. x ≡ healthy) deadline now) (init initialized ∷ [])
      ↔ (initialized now ≡ true)
unfolding initialized_check
init_healthy now initialized = elim (Bool-cases (initialized now)) [
  | inl up ↦ rw up (λ p. refl, λ e. ((now, healthy, refl, inr (omega arith), refl), tt))
  | inr down ↦ rw down (λ p. cc, λ e. cc)
]

module _ (rt : Runtime) (redis : Redis.RedisClient) (db : Sqlx.Database) (pool : db.Pool)
    (draining initialized : AtomicBool) where
  only_init :
      (redis_url : Option Text)
      → members (codes "init") (registered rt redis db pool redis_url draining initialized)
        ≡ init initialized ∷ []
  unfolding members
  only_init none = refl
  only_init (some url) = refl

startup_of :
    (rt : Runtime) (features : Features) (r : HealthRegistry) (s : Store) (now : Time)
    (group : Text) (cs : List RegisteredCheck)
    → r.default_timeout ≡ deadline
    → members group (checks_of s r) ≡ cs
    → AllAnswer deadline now cs
    → (t : Time) × (response : Response) × (startup_handler rt features
          (record { registry = r; group = some group })
          s
          now
        ≡ done t (response, []))
      × ((response.status ≡ StatusCode.ok) ↔ All (Passes (λ x. x ≡ healthy) deadline now) cs)
      × ((response.status ≡ StatusCode.ok) ⊎ (response.status ≡ service_unavailable))
      × (t ≤ now + deadline + rt.lag)
startup_of rt features r s now group cs e e' h =
    let (t, response, ran, code, either, soon) =
      startup_handler-Passes rt features r group s now (rw (e, e') h) in
    (
      t,
      response,
      ran,
      rw (e, e') at code,
      either,
      ends_soon (now + deadline + rt.lag) t (rw e at soon),
    )

module _ (rt : Runtime) (redis : Redis.RedisClient) (db : Sqlx.Database) (pool : db.Pool)
    (redis_url : Option Text) (features : Features) (s : Store) (now : Time) where
  -- Whatever the database, the redis server and the blocking pool do, the service's `/startupz`
  -- responds by the deadline of two seconds and the lag of the timer: with 200 exactly if the
  -- service is initialized, else with 503. So no dependency can restart a pod that is starting.
  pub service_started_iff :
      (draining initialized : AtomicBool)
      → (t : Time) × (response : Response) × (startup_handler rt features
            (record {
              registry = (setup rt redis db pool redis_url draining initialized s).0;
              group = some (codes "init");
            })
            (setup rt redis db pool redis_url draining initialized s).1
            now
          ≡ done t (response, []))
        × ((response.status ≡ StatusCode.ok) ↔ (initialized now ≡ true))
        × ((response.status ≡ StatusCode.ok) ⊎ (response.status ≡ service_unavailable))
        × (t ≤ now + deadline + rt.lag)
  unfolding initialized_check
  service_started_iff draining initialized =
      let (two_seconds, has) = setup-Has rt redis db pool redis_url draining initialized s in
      let only = only_init rt redis db pool draining initialized redis_url in
      let (t, response, ran, code, either, soon) =
        startup_of rt features _ _ now (codes "init") (init initialized ∷ []) two_seconds
          (rw has.1 only) (tt, tt) in
      let (to, from) = init_healthy now initialized in
      (t, response, ran, (λ e. to (code.0 e), λ p. code.1 (from p)), either, soon)

  raised_and_ready : {b : Bool} → b ≡ false → ¬ (b ≡ true)
  raised_and_ready e e' = cc

  -- From the first instant at which SIGINT or SIGTERM has arrived, or at which the process cannot
  -- listen for one of them, the service's `/readyz` responds with 503, whatever the dependencies
  -- report; unless the database driver unwinds before the deadline, and while the blocking pool runs.
  pub service_drained :
      (draining initialized : AtomicBool) (signals : Signals) (began u : Time)
      → QuietSignals signals began
      → Signalled signals began u
      → u ≤ now
      → rt.accepts now ≡ true
      → SqlxOutcomes.AnswersOrLate rt db
          (Sqlx.new db pool deadline 500)
          now
          (db.execute Sqlx.probe_query pool now)
      → (t : Time) × (response : Response) × (emitted : List Emission) × (readiness_handler rt
            features
            (record {
              registry =
                  (setup rt redis db pool redis_url
                    (shutdown_signal signals began draining)
                    initialized
                    s).0;
              config = default_config;
            })
            (setup rt redis db pool redis_url
              (shutdown_signal signals began draining)
              initialized
              s).1
            now
          ≡ done t (response, emitted))
        × (response.status ≡ service_unavailable)
        × (t ≤ now + deadline + rt.lag)
  service_drained draining initialized signals began u quiet e h up answers =
      let down = (shutdown_signal_iff signals began quiet draining now).1 (inr (u, h, e)) in
      let (t, response, emitted, ran, code, either, soon) =
        service_ready_iff rt redis db pool redis_url (shutdown_signal signals began draining)
          initialized now features s up answers in
      let refused : response.status ≡ service_unavailable = elim either [
        | inl good ↦ absurd (raised_and_ready (code.0 good).3 down)
        | inr bad ↦ bad
      ] in
      (t, response, emitted, ran, refused, soon)
