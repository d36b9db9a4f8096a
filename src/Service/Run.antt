-- ===== src/Service/Run.antt =====
-- examples/k8s_service.rs: `run`, from its environment to the end of the server.
use healthkit.Base.{◌≡◌, Text, codes, Option, none, some, Result, ok, err, false}
use healthkit.Async.{Time, done, hangs, Async, pure, instant_now, ◌>>=◌}
use healthkit.Async.Runtime.{Runtime}
use healthkit.Registry.{HealthRegistry, Store, Features}
use healthkit.Checks.Redis
use healthkit.Checks.Redis.{◌>>?◌}
use healthkit.Checks.Sqlx
use healthkit.Service.Setup.{AtomicBool, store_true, App, setup, app}
use healthkit.Service.Shutdown.{Signals, first_signal, shutdown_signal}

-- What `run` uses of the operating system, of the pool's connection, and of axum's server.
pub record Host (db : Sqlx.Database) (JoinError : Type 0) : Type 1 where
  pub IoError : Type 0
  pub join_failed : JoinError → IoError
  -- `std::env::var(name).ok()`
  pub var : Text → Option Text
  pub connect : Text → Async (Result db.Pool IoError)
  pub Listener : Type 0
  pub bind_to : Text → Async (Result Listener IoError)
  pub signals : Signals
  -- The connections that are open when the server stops to accept more of them are closed.
  pub closed : Listener → App → Async (Unit {0})
  -- `axum::serve(listener, app).with_graceful_shutdown(signal).await`
  pub serve : Listener → App → Async (Unit {0}) → Async (Result (Unit {0}) IoError)
  -- It serves until the signal, then waits for the open connections, and gives no error.
  pub serve_drains :
      (listener : Listener) (app : App) (signal : Async (Unit {0})) (now t : Time)
      → signal now ≡ done t tt
      → serve listener app signal now ≡ (closed listener app >>= λ u. pure (ok tt)) t
  pub serve_hangs :
      (listener : Listener) (app : App) (signal : Async (Unit {0})) (now : Time)
      → signal now ≡ hangs
      → serve listener app signal now ≡ hangs

unfoldable pub or_default : Option Text → Text → Text
or_default none d = d
or_default (some v) d = v

-- `Arc::new(AtomicBool::new(false))`
abbrev pub new_flag : AtomicBool
new_flag now = false

-- `?` on the handle of a task.
abbrev pub joined : {A E F : Type 0} → (E → F) → Result A E → Result A F
joined f (ok a) = ok a
joined f (err e) = err (f e)

module _ (rt : Runtime) (redis : Redis.RedisClient) (db : Sqlx.Database)
    (host : Host db rt.JoinError) where
  -- What `axum::serve` is started with: the listener, the routes over the registry, and the vectors
  -- that the checks stand in.
  pub record Serving : Type 0 where
    pub listener : host.Listener
    pub registry : HealthRegistry
    pub store : Store
    pub routes : App

  -- The flags are written after the checks that load them are registered: the task's result waits
  -- for the instants of the stores.
  abbrev Built : Type 0
  Built = AtomicBool → AtomicBool → HealthRegistry × Store

  -- Behind the bind: initialization is complete, and the wait for a signal begins.
  unfoldable pub start : Features → host.Listener → Built → Async (Result Serving host.IoError)
  unfolding shutdown_signal app
  start features listener build = do
    at ← instant_now
    let initialized = store_true at new_flag
    let draining = shutdown_signal host.signals at new_flag
    let (registry, store) = build draining initialized
    pure (
        ok (record {
          listener = listener;
          registry = registry;
          store = store;
          routes = app rt features registry;
        }))

  -- `run` up to the server.
  unfoldable pub prepare : Features → Store → Async (Result Serving host.IoError)
  unfolding setup or_default start
  prepare features s =
      let bind_addr = or_default (host.var (codes "BIND_ADDR")) (codes "0.0.0.0:3000") in
      let database_url = or_default (host.var (codes "DATABASE_URL")) (codes "sqlite::memory:") in
      let redis_url = host.var (codes "REDIS_URL") in
      host.connect database_url >>? λ pool.
      ((rt.spawn_blocking
            (pure (λ draining initialized. setup rt redis db pool redis_url draining initialized s))
          >>= λ task. pure (joined host.join_failed task))
        >>? λ build. host.bind_to bind_addr >>? λ listener. start features listener build)

  unfoldable pub run : Features → Store → Async (Result (Unit {0}) host.IoError)
  unfolding prepare first_signal
  run features s = prepare features s >>? λ serving.
      host.serve serving.listener serving.routes (first_signal host.signals)
