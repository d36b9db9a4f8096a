-- ===== src/Service/Ending.antt =====
-- examples/k8s_service.rs, `run`: when it returns, and with what.
use healthkit.Base.{◌≡◌, refl, ◌∙◌, ◌↔◌, inl, inr, Result, ok, err}
use healthkit.Async.{Time, Outcome, done, panicked, hangs, pure, ◌>>=◌}
use healthkit.Async.Runtime.{Runtime}
use healthkit.Registry.{Store, Features}
use healthkit.Checks.Redis
use healthkit.Checks.Sqlx
use healthkit.Service.Shutdown.{first_signal}
use healthkit.Service.Earlier.{Earliest}
use healthkit.Service.Draining.{Signalled, QuietSignals, first_signal_iff, first_signal_cases}
use healthkit.Service.Run.{Host, Serving, prepare, run}
use healthkit.Service.Life.{
  Launches, Fails, serving_of, prepare-Launches, prepare-Fails, Prepared, connected_cases,
}
use healthkit.Service.Life.Prepared.{failed, started, unwound, stuck}

module _ (rt : Runtime) (redis : Redis.RedisClient) (db : Sqlx.Database)
    (host : Host db rt.JoinError) (features : Features) (s : Store) where
  -- The first signal after the server has started, and the instant at which the open connections
  -- are closed then.
  abbrev pub Drains : db.Pool → Time → host.Listener → Time → Type 0
  Drains pool bound listener t =
      (u : Time) × Earliest (Signalled host.signals bound) u
      × (host.closed listener (serving_of rt redis db host features s pool bound listener).routes u
          ≡ done t tt)

  -- It has come to serve, and the server has drained.
  abbrev pub Stops : Time → Time → Type 0
  Stops now t =
      (pool : db.Pool) × (bound : Time) × (listener : host.Listener) × Launches rt redis db host
        features s now pool bound listener
      × Drains pool bound listener t

  module _ (quiet : (began : Time) → QuietSignals host.signals began) (now : Time) where
    run-prepared :
        (serving : Serving rt redis db host) (bound : Time)
        → prepare rt redis db host features s now ≡ done bound (ok serving)
        → run rt redis db host features s now
          ≡ host.serve serving.listener serving.routes (first_signal host.signals) bound
    unfolding run
    run-prepared serving bound e = rw e

    -- How the server ends.
    data Served (pool : db.Pool) (bound : Time) (listener : host.Listener)
        (o : Outcome (Result (Unit {0}) host.IoError)) : Type 0 where
      drained :
          (t : Time)
          → Drains pool bound listener t
          → o ≡ done t (ok tt)
          → Served pool bound listener o
      crashed : (t : Time) → o ≡ panicked t → Served pool bound listener o
      serving : o ≡ hangs → Served pool bound listener o

    run-Drains :
        (pool : db.Pool) (bound : Time) (listener : host.Listener) (u : Time)
        → Launches rt redis db host features s now pool bound listener
        → Earliest (Signalled host.signals bound) u
        → run rt redis db host features s now
          ≡ (host.closed listener
                  (serving_of rt redis db host features s pool bound listener).routes
                >>= λ x. pure (ok tt))
              u
    run-Drains pool bound listener u h first =
        run-prepared _ bound
          (prepare-Launches rt redis db host features s now pool bound listener h)
        ∙ host.serve_drains listener _ _ bound u
            ((first_signal_iff host.signals bound (quiet bound) u).1 first)

    closed_cases :
        (pool : db.Pool) (bound : Time) (listener : host.Listener) (u : Time)
        (o : Outcome (Unit {0}))
        → Launches rt redis db host features s now pool bound listener
        → Earliest (Signalled host.signals bound) u
        → host.closed listener (serving_of rt redis db host features s pool bound listener).routes u
          ≡ o
        → Served pool bound listener (run rt redis db host features s now)
    closed_cases pool bound listener u (done t x) h first e =
        drained t (u, first, e) (run-Drains pool bound listener u h first ∙ rw e refl)
    closed_cases pool bound listener u (panicked t) h first e =
        crashed t (run-Drains pool bound listener u h first ∙ rw e refl)
    closed_cases pool bound listener u hangs h first e =
        serving (run-Drains pool bound listener u h first ∙ rw e refl)

    served_cases :
        (pool : db.Pool) (bound : Time) (listener : host.Listener)
        → Launches rt redis db host features s now pool bound listener
        → Served pool bound listener (run rt redis db host features s now)
    served_cases pool bound listener h =
        elim (first_signal_cases host.signals bound (quiet bound)) [
          | inl (u, first) ↦ closed_cases pool bound listener u _ h first refl
          | inr e ↦ serving (
              run-prepared _ bound
                (prepare-Launches rt redis db host features s now pool bound listener h)
              ∙ host.serve_hangs listener _ _ bound e)
        ]

    -- `run` came to an error: it is the one with which the part before the server failed.
    failed_with :
        (o : Outcome (Result (Unit {0}) host.IoError)) (t t' : Time) (e e' : host.IoError)
        → o ≡ done t (err e)
        → o ≡ done t' (err e')
        → Fails rt redis db host features s now t' e'
        → Fails rt redis db host features s now t e
    failed_with o t t' e e' h h' f =
        let same_time : t' ≡ t = cc in
        let same_error : e' ≡ e = cc in rw (same_time, same_error) at f

    served_no_error :
        (pool : db.Pool) (bound : Time) (listener : host.Listener)
        (o : Outcome (Result (Unit {0}) host.IoError)) (t : Time) (e : host.IoError)
        → Served pool bound listener o
        → ¬ (o ≡ done t (err e))
    served_no_error pool bound listener o t e (drained u d eq) h = cc
    served_no_error pool bound listener o t e (crashed u eq) h = cc
    served_no_error pool bound listener o t e (serving eq) h = cc

    served_ok :
        (pool : db.Pool) (bound : Time) (listener : host.Listener)
        (o : Outcome (Result (Unit {0}) host.IoError)) (t : Time)
        → Served pool bound listener o
        → o ≡ done t (ok tt)
        → Drains pool bound listener t
    served_ok pool bound listener o t (drained u (v, first, e) eq) h =
        let same : u ≡ t = cc in (v, first, rw same at e)
    served_ok pool bound listener o t (crashed u eq) h = cc
    served_ok pool bound listener o t (serving eq) h = cc

    run-failed :
        (t : Time) (e : host.IoError)
        → prepare rt redis db host features s now ≡ done t (err e)
        → run rt redis db host features s now ≡ done t (err e)
    unfolding run
    run-failed t e h = rw h

    abbrev Ran : Outcome (Result (Unit {0}) host.IoError)
    Ran = run rt redis db host features s now

    run_error :
        (t : Time) (e : host.IoError)
        → Prepared rt redis db host features s now (prepare rt redis db host features s now)
        → Ran ≡ done t (err e)
        → Fails rt redis db host features s now t e
    unfolding run
    run_error t e (failed t' e' f eq) h = failed_with Ran t t' e e' h (run-failed t' e' eq) f
    run_error t e (started pool bound listener st eq) h =
        absurd (served_no_error pool bound listener Ran t e (served_cases pool bound listener st) h)
    run_error t e (unwound u eq) h = let gone : Ran ≡ panicked u = rw eq refl in cc
    run_error t e (stuck eq) h = let gone : Ran ≡ hangs = rw eq refl in cc

    run_ok :
        (t : Time)
        → Prepared rt redis db host features s now (prepare rt redis db host features s now)
        → Ran ≡ done t (ok tt)
        → Stops now t
    unfolding run
    run_ok t (failed t' e' f eq) h = let no : Ran ≡ done t' (err e') = run-failed t' e' eq in cc
    run_ok t (started pool bound listener st eq) h = (
      pool,
      bound,
      listener,
      st,
      served_ok pool bound listener Ran t (served_cases pool bound listener st) h,
    )
    run_ok t (unwound u eq) h = let gone : Ran ≡ panicked u = rw eq refl in cc
    run_ok t (stuck eq) h = let gone : Ran ≡ hangs = rw eq refl in cc

    -- `run` returns an error exactly if the pool does not connect, the blocking pool refuses the task
    -- that registers the checks, or the address is not bound, with that error and at that instant. It
    -- returns without an error exactly if it has come to serve, a first signal was there, and the
    -- connections that were open then are closed, at that instant. The waits for the signals are
    -- assumed not to unwind.
    pub run-Ends :
        (t : Time)
        → ((e : host.IoError)
            → (run rt redis db host features s now ≡ done t (err e))
              ↔ Fails rt redis db host features s now t e)
          × ((run rt redis db host features s now ≡ done t (ok tt)) ↔ Stops now t)
    run-Ends t =
        let how = connected_cases rt redis db host features s now _ refl in
        (
          λ e. (
            run_error t e how,
            λ f. run-failed t e (prepare-Fails rt redis db host features s now t e f),
          ),
          (
            run_ok t how,
            λ (pool, bound, listener, st, (u, first, e)).
                run-Drains pool bound listener u st first ∙ rw e refl,
          ),
        )
