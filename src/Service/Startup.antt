-- ===== src/Service/Startup.antt =====
-- examples/k8s_service.rs, `run`: that it comes to serve, and what the startup probe answers then.
use healthkit.Base.{◌+◌, ◌≤◌, ◌≡◌, refl, true, [], codes, some, arith}
use healthkit.Async.{Time, done}
use healthkit.Async.Runtime.{Runtime}
use healthkit.Registry.{Store, Features}
use healthkit.Routes.{StatusCode, Response, Handler, startup_handler}
use healthkit.Checks.Redis
use healthkit.Checks.Sqlx
use healthkit.Service.Setup.{store_true}
use healthkit.Service.Shutdown.{shutdown_signal, first_signal}
use healthkit.Service.Ready.{deadline}
use healthkit.Service.Phases.{service_started_iff}
use healthkit.Service.Routing.{handler_of, app_routes}
use healthkit.Service.Run.{Host, new_flag, Serving, run}
use healthkit.Service.Life.{Launches, serving_of, prepare-Launches}

pub stored : (at later : Time) → at ≤ later → store_true at new_flag later ≡ true
stored at later h = ground arith

module _ (rt : Runtime) (redis : Redis.RedisClient) (db : Sqlx.Database)
    (host : Host db rt.JoinError) (features : Features) (s : Store) where
  -- If the pool connects, the blocking pool takes the task, and the address can be bound, then `run`
  -- comes to serve, and at every later instant `/startupz` responds with 200, by the deadline of two
  -- seconds and the lag of the timer: the startup probe never fails once there is a server for it.
  pub run_starts :
      (now bound later : Time) (pool : db.Pool) (listener : host.Listener)
      → Launches rt redis db host features s now pool bound listener
      → bound ≤ later
      → (serving : Serving rt redis db host) × (run rt redis db host features s now
          ≡ host.serve listener serving.routes (first_signal host.signals) bound)
        × (handler : Handler) × (handler_of (codes "/startupz") serving.routes.router
            ≡ some handler)
        × (t : Time) × (response : Response) × (handler serving.store later ≡ done t (response, []))
        × (response.status ≡ StatusCode.ok)
        × (t ≤ later + deadline + rt.lag)
  unfolding run
  run_starts now bound later pool listener st h =
      let serving = serving_of rt redis db host features s pool bound listener in
      let initialized = store_true bound new_flag in
      let draining = shutdown_signal host.signals bound new_flag in
      let (t, response, ran, code, either, soon) =
        service_started_iff rt redis db pool (host.var (codes "REDIS_URL")) features s later
          draining initialized in
      (
        serving,
        rw (prepare-Launches rt redis db host features s now pool bound listener st) refl,
        startup_handler rt features
            (record { registry = serving.registry; group = some (codes "init") }),
        (app_routes rt features serving.registry).2,
        t,
        response,
        ran,
        code.1 (stored bound later h),
        soon,
      )
