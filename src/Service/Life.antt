-- ===== src/Service/Life.antt =====
-- examples/k8s_service.rs, `run`: when it comes to serve, and when it fails before.
use healthkit.Base.{◌≡◌, refl, ◌⊎◌, inl, inr, true, false, Bool-cases, Result, ok, err, codes, Text}
use healthkit.Async.{Time, Outcome, done, panicked, hangs, Async, pure}
use healthkit.Async.Runtime.{Runtime}
use healthkit.Registry.{HealthRegistry, Store, Features}
use healthkit.Checks.Redis
use healthkit.Checks.Sqlx
use healthkit.Service.Setup.{AtomicBool, store_true, setup, app}
use healthkit.Service.Shutdown.{shutdown_signal}
use healthkit.Service.Run.{Host, or_default, new_flag, Serving, prepare}

module _ (rt : Runtime) (redis : Redis.RedisClient) (db : Sqlx.Database)
    (host : Host db rt.JoinError) (features : Features) (s : Store) where
  abbrev pub database_url : Text
  database_url = or_default (host.var (codes "DATABASE_URL")) (codes "sqlite::memory:")

  abbrev pub bind_addr : Text
  bind_addr = or_default (host.var (codes "BIND_ADDR")) (codes "0.0.0.0:3000")

  -- The task that registers the checks, once there is a pool.
  abbrev pub task : db.Pool → Async (AtomicBool → AtomicBool → HealthRegistry × Store)
  task pool = pure (λ draining initialized.
      setup rt redis db pool (host.var (codes "REDIS_URL")) draining initialized s)

  -- What `run` serves with a pool and a listener that it has bound at an instant.
  abbrev pub serving_of : db.Pool → Time → host.Listener → Serving rt redis db host
  serving_of pool bound listener =
      let initialized = store_true bound new_flag in
      let draining = shutdown_signal host.signals bound new_flag in
      let built = setup rt redis db pool (host.var (codes "REDIS_URL")) draining initialized s in
      record {
        listener = listener;
        registry = built.0;
        store = built.1;
        routes = app rt features built.0;
      }

  module _ (now : Time) where
    -- The pool connects, the blocking pool takes the task, and the address is bound.
    abbrev pub Launches : db.Pool → Time → host.Listener → Type 0
    Launches pool bound listener =
        (c : Time) × (host.connect database_url now ≡ done c (ok pool))
        × (rt.accepts c ≡ true)
        × (host.bind_to bind_addr c ≡ done bound (ok listener))

    -- The pool does not connect, the blocking pool refuses the task, or the address is not bound.
    abbrev pub Fails : Time → host.IoError → Type 0
    Fails t e =
        (host.connect database_url now ≡ done t (err e))
        ⊎ (((c : Time) × (pool : db.Pool) × (x : rt.JoinError) × (host.connect database_url now
                ≡ done c (ok pool))
              × (rt.accepts c ≡ false)
              × (rt.spawn_blocking (task pool) c ≡ done t (err x))
              × (e ≡ host.join_failed x))
            ⊎ ((c : Time) × (pool : db.Pool) × (host.connect database_url now ≡ done c (ok pool))
                × (rt.accepts c ≡ true)
                × (host.bind_to bind_addr c ≡ done t (err e))))

    pub prepare-Launches :
        (pool : db.Pool) (bound : Time) (listener : host.Listener)
        → Launches pool bound listener
        → prepare rt redis db host features s now ≡ done bound (ok (serving_of pool bound listener))
    unfolding prepare
    prepare-Launches pool bound listener (c, e, up, b) =
        rw (e, rt.spawn_blocking_done (task pool) c c _ up refl, b) refl

    pub prepare-Fails :
        (t : Time) (e : host.IoError)
        → Fails t e
        → prepare rt redis db host features s now ≡ done t (err e)
    unfolding prepare
    prepare-Fails t e (inl no_pool) = rw no_pool refl
    prepare-Fails t e (inr (inl (c, pool, x, conn, down, refused, same))) =
        rw (conn, refused, same) refl
    prepare-Fails t e (inr (inr (c, pool, conn, up, unbound))) =
        rw (conn, rt.spawn_blocking_done (task pool) c c _ up refl, unbound) refl

    -- The ways in which the part before the server can end.
    pub data Prepared (o : Outcome (Result (Serving rt redis db host) host.IoError)) : Type 0 where
      failed : (t : Time) (e : host.IoError) → Fails t e → o ≡ done t (err e) → Prepared o
      started :
          (pool : db.Pool) (bound : Time) (listener : host.Listener)
          → Launches pool bound listener
          → o ≡ done bound (ok (serving_of pool bound listener))
          → Prepared o
      unwound : (t : Time) → o ≡ panicked t → Prepared o
      stuck : o ≡ hangs → Prepared o

    bound_cases :
        (pool : db.Pool) (c : Time) (o : Outcome (Result host.Listener host.IoError))
        → host.connect database_url now ≡ done c (ok pool)
        → rt.accepts c ≡ true
        → host.bind_to bind_addr c ≡ o
        → Prepared (prepare rt redis db host features s now)
    unfolding prepare
    bound_cases pool c (done b (ok listener)) e up e' =
        let h : Launches pool b listener = (c, e, up, e') in
        started pool b listener h (prepare-Launches pool b listener h)
    bound_cases pool c (done b (err x)) e up e' =
        let h : Fails b x = inr (inr (c, pool, e, up, e')) in failed b x h (prepare-Fails b x h)
    bound_cases pool c (panicked t) e up e' =
        unwound t (rw (e, rt.spawn_blocking_done (task pool) c c _ up refl, e') refl)
    bound_cases pool c hangs e up e' =
        stuck (rw (e, rt.spawn_blocking_done (task pool) c c _ up refl, e') refl)

    pub connected_cases :
        (o : Outcome (Result db.Pool host.IoError))
        → host.connect database_url now ≡ o
        → Prepared (prepare rt redis db host features s now)
    unfolding prepare
    connected_cases (done c (ok pool)) e = elim (Bool-cases (rt.accepts c)) [
      | inl up ↦ bound_cases pool c (host.bind_to bind_addr c) e up refl
      | inr down ↦
          let (t, x, refused) = rt.spawn_blocking_refused (task pool) c down in
          let h : Fails t (host.join_failed x) = inr (inl (c, pool, x, e, down, refused, refl)) in
          failed t (host.join_failed x) h (prepare-Fails t _ h)
    ]
    connected_cases (done c (err x)) e =
        let h : Fails c x = inl e in failed c x h (prepare-Fails c x h)
    connected_cases (panicked t) e = unwound t (rw e refl)
    connected_cases hangs e = stuck (rw e refl)
