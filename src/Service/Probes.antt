-- ===== src/Service/Probes.antt =====
-- examples/k8s_service.rs: when the service's probes pass.
use healthkit.Base.{
  ◌+◌, ◌≤◌, ◌≡◌, ◌↔◌, ◌⊎◌, inl, inr, true, false, All, Option, none, some, ok, err, Text, List,
  arith,
}
use healthkit.Async.{Time, done}
use healthkit.Async.Runtime.{Runtime}
use healthkit.Registry.{HealthRegistry, RegisteredCheck, Store, Features, Emission, checks_of}
use healthkit.Registry.Reports.{Answers, Answers-done, EndsBy}
use healthkit.Registry.Sweeps.{AllAnswer}
use healthkit.Routes.{
  StatusCode, service_unavailable, Response, HealthState, default_config, readiness_handler,
}
use healthkit.Routes.Readiness.{readiness_handler-Passes}
use healthkit.Checks.Redis
use healthkit.Checks.Sqlx
use healthkit.Checks.RedisOutcomes
use healthkit.Checks.SqlxOutcomes
use healthkit.Service.Setup.{AtomicBool, initialized_check, draining_check, setup}
use healthkit.Service.Wiring.{database, cache, registered, setup-Has}
use healthkit.Service.Ready.{
  deadline, Ok, drain_iff, init_iff, CacheReady, cache_iff, DatabaseReady, database_iff,
}

pub ends_soon : (limit t : Time) → EndsBy limit deadline t → t ≤ limit
ends_soon limit t (inl z) = omega arith
ends_soon limit t (inr soon) = soon

-- How `/readyz` responds for a registry with these checks and that deadline.
ready_of :
    (rt : Runtime) (features : Features) (r : HealthRegistry) (s : Store) (now : Time)
    (cs : List RegisteredCheck)
    → r.default_timeout ≡ deadline
    → checks_of s r ≡ cs
    → AllAnswer deadline now cs
    → (t : Time) × (response : Response) × (emitted : List Emission) × (readiness_handler rt
          features
          (record { registry = r; config = default_config })
          s
          now
        ≡ done t (response, emitted))
      × ((response.status ≡ StatusCode.ok) ↔ All (Ok now) cs)
      × ((response.status ≡ StatusCode.ok) ⊎ (response.status ≡ service_unavailable))
      × (t ≤ now + deadline + rt.lag)
ready_of rt features r s now cs e e' h =
    let state : HealthState = record { registry = r; config = default_config } in
    let (t, response, emitted, ran, code, either, soon) =
      readiness_handler-Passes rt features state s now (rw (e, e') h) in
    (
      t,
      response,
      emitted,
      ran,
      rw (e, e') at code,
      either,
      ends_soon (now + deadline + rt.lag) t (rw e at soon),
    )

module _ (rt : Runtime) (redis : Redis.RedisClient) (db : Sqlx.Database) (pool : db.Pool)
    (redis_url : Option Text) (draining initialized : AtomicBool) (now : Time) where
  database-Answers :
      SqlxOutcomes.AnswersOrLate rt db
        (Sqlx.new db pool deadline 500)
        now
        (db.execute Sqlx.probe_query pool now)
      → Answers deadline now ((database rt db pool).check_fn now)
  unfolding Sqlx.new
  database-Answers h =
      elim (SqlxOutcomes.check-Settles rt db (Sqlx.new db pool deadline 500) now h) [
        | inl (t, q, s, e, ran, soon, g) ↦ Answers-done deadline now t _ (ok s) e
        | inr (t, x, e, soon) ↦ Answers-done deadline now t _ (err x) e
      ]

  cache-Answers : (url : Option Text) → AllAnswer deadline now (cache rt redis url)
  cache-Answers none = tt
  cache-Answers (some url) =
      let (t, r, e, soon) = RedisOutcomes.check-Returns rt redis (Redis.new url deadline 500) now in
      (Answers-done deadline now t _ r e, tt)

  pub all_answer :
      (url : Option Text)
      → SqlxOutcomes.AnswersOrLate rt db
          (Sqlx.new db pool deadline 500)
          now
          (db.execute Sqlx.probe_query pool now)
      → AllAnswer deadline now (registered rt redis db pool url draining initialized)
  unfolding initialized_check draining_check
  all_answer none h = (database-Answers h, (tt, (tt, tt)))
  all_answer (some url) h = (database-Answers h, ((cache-Answers (some url)).0, (tt, (tt, tt))))

  registered_iff :
      (url : Option Text)
      → rt.accepts now ≡ true
      → SqlxOutcomes.AnswersOrLate rt db
          (Sqlx.new db pool deadline 500)
          now
          (db.execute Sqlx.probe_query pool now)
      → All (Ok now) (registered rt redis db pool url draining initialized) ↔ (
          DatabaseReady now rt db pool
          × CacheReady now rt redis url
          × (initialized now ≡ true)
          × (draining now ≡ false))
  registered_iff none up h =
      let (d, d') = database_iff now rt db pool h in
      let (i, i') = init_iff now initialized in
      let (f, f') = drain_iff now draining in
      (λ (a, (b, (c, e))). (d a, tt, i b, f c), λ (a, x, b, c). (d' a, (i' b, (f' c, tt))))
  registered_iff (some url) up h =
      let (d, d') = database_iff now rt db pool h in
      let (r, r') = cache_iff now rt redis (some url) up in
      let (i, i') = init_iff now initialized in
      let (f, f') = drain_iff now draining in
      (
        λ (a, (x, (b, (c, e)))). (d a, r (x, tt), i b, f c),
        λ (a, x, b, c). (d' a, ((r' x).0, (i' b, (f' c, tt)))),
      )

  module _ (features : Features) (s : Store) where
    -- While the blocking pool runs, and unless the database driver unwinds before the deadline, the
    -- service's `/readyz` responds by the deadline of two seconds and the lag of the timer. It
    -- responds with 200 exactly if the probe query succeeded within the deadline, the redis server,
    -- if there is one, answered `PONG` within it, the service is initialized, and it is not
    -- draining; and with 503 in all other cases.
    pub service_ready_iff :
        rt.accepts now ≡ true
        → SqlxOutcomes.AnswersOrLate rt db
            (Sqlx.new db pool deadline 500)
            now
            (db.execute Sqlx.probe_query pool now)
        → (t : Time) × (response : Response) × (emitted : List Emission) × (readiness_handler rt
              features
              (record {
                registry = (setup rt redis db pool redis_url draining initialized s).0;
                config = default_config;
              })
              (setup rt redis db pool redis_url draining initialized s).1
              now
            ≡ done t (response, emitted))
          × ((response.status ≡ StatusCode.ok) ↔ (
              DatabaseReady now rt db pool
              × CacheReady now rt redis redis_url
              × (initialized now ≡ true)
              × (draining now ≡ false)))
          × ((response.status ≡ StatusCode.ok) ⊎ (response.status ≡ service_unavailable))
          × (t ≤ now + deadline + rt.lag)
    service_ready_iff up h =
        let (two_seconds, has) = setup-Has rt redis db pool redis_url draining initialized s in
        let (t, response, emitted, ran, code, either, soon) =
          ready_of rt features _ _ now _ two_seconds has.1 (all_answer redis_url h) in
        let (to, from) = registered_iff redis_url up h in
        (t, response, emitted, ran, (λ e. to (code.0 e), λ p. code.1 (from p)), either, soon)
