-- ===== src/Service/Serves.antt =====
-- examples/k8s_service.rs, `run`: what `/readyz` answers from the instant at which it serves.
use healthkit.Base.{
  ◌+◌, ◌≤◌, ◌≡◌, refl, ◌↔◌, ◌⊎◌, inl, inr, true, false, Bool-cases, List, some, codes,
}
use healthkit.Async.{Time, done}
use healthkit.Async.Runtime.{Runtime}
use healthkit.Registry.{Store, Features, Emission}
use healthkit.Routes.{
  StatusCode, service_unavailable, Response, Handler, default_config, readiness_handler,
}
use healthkit.Checks.Redis
use healthkit.Checks.Sqlx
use healthkit.Checks.SqlxOutcomes
use healthkit.Service.Setup.{store_true}
use healthkit.Service.Shutdown.{Signals, first_signal, shutdown_signal}
use healthkit.Service.Draining.{Signalled, QuietSignals, shutdown_signal_iff}
use healthkit.Service.Ready.{deadline, CacheReady, DatabaseReady}
use healthkit.Service.Probes.{service_ready_iff}
use healthkit.Service.Routing.{handler_of, app_routes}
use healthkit.Service.Run.{Host, new_flag, Serving, run}
use healthkit.Service.Life.{Launches, serving_of, prepare-Launches}
use healthkit.Service.Startup.{stored}

-- The pod is not draining exactly while no signal has come.
calm_iff :
    (signals : Signals) (began later : Time)
    → QuietSignals signals began
    → (shutdown_signal signals began new_flag later ≡ false)
      ↔ ¬ ((u : Time) × (u ≤ later) × Signalled signals began u)
calm_iff signals began later quiet =
    let (to, from) = shutdown_signal_iff signals began quiet new_flag later in
    elim (Bool-cases (shutdown_signal signals began new_flag later)) [
      | inl down ↦ (λ up. cc, λ none. elim (to down) [ inl e ↦ cc | inr over ↦ absurd (none over) ])
      | inr up ↦ (λ e over. let down = from (inr over) in cc, λ none. up)
    ]

module _ (rt : Runtime) (redis : Redis.RedisClient) (db : Sqlx.Database)
    (host : Host db rt.JoinError) (features : Features) (s : Store) where
  -- Once `run` serves, its `/readyz` responds, by the deadline of two seconds and the lag of the
  -- timer: with 200 exactly if the probe query succeeded within the deadline, the redis server, if
  -- there is one, answered `PONG` within it, and no signal has come up to then; else with 503. So it
  -- is from the first signal on, whatever the dependencies report. The database driver does not
  -- unwind before the deadline, and the blocking pool runs.
  pub run_ready :
      (now bound later : Time) (pool : db.Pool) (listener : host.Listener)
      → Launches rt redis db host features s now pool bound listener
      → QuietSignals host.signals bound
      → bound ≤ later
      → rt.accepts later ≡ true
      → SqlxOutcomes.AnswersOrLate rt db
          (Sqlx.new db pool deadline 500)
          later
          (db.execute Sqlx.probe_query pool later)
      → (serving : Serving rt redis db host) × (run rt redis db host features s now
          ≡ host.serve listener serving.routes (first_signal host.signals) bound)
        × (handler : Handler) × (handler_of (codes "/readyz") serving.routes.router ≡ some handler)
        × (t : Time) × (response : Response) × (emitted : List Emission) × (handler serving.store
              later
            ≡ done t (response, emitted))
        × ((response.status ≡ StatusCode.ok) ↔ (
            DatabaseReady later rt db pool
            × CacheReady later rt redis (host.var (codes "REDIS_URL"))
            × (¬ ((u : Time) × (u ≤ later) × Signalled host.signals bound u))))
        × ((response.status ≡ StatusCode.ok) ⊎ (response.status ≡ service_unavailable))
        × (t ≤ later + deadline + rt.lag)
  unfolding run
  run_ready now bound later pool listener st quiet h up answers =
      let serving = serving_of rt redis db host features s pool bound listener in
      let initialized = store_true bound new_flag in
      let draining = shutdown_signal host.signals bound new_flag in
      let (t, response, emitted, ran, code, either, soon) =
        service_ready_iff rt redis db pool (host.var (codes "REDIS_URL")) draining initialized later
          features s up answers in
      let (to, from) = calm_iff host.signals bound later quiet in
      (
        serving,
        rw (prepare-Launches rt redis db host features s now pool bound listener st) refl,
        readiness_handler rt features
            (record { registry = serving.registry; config = default_config }),
        (app_routes rt features serving.registry).0,
        t,
        response,
        emitted,
        ran,
        (
          λ e. let (d, c, i, calm) = code.0 e in (d, c, to calm),
          λ (d, c, none). code.1 (d, c, stored bound later h, from none),
        ),
        either,
        soon,
      )
