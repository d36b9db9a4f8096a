-- ===== src/Examples/Living.antt =====
-- examples/k8s_service.rs, `run`, on a host that gets SIGTERM after three seconds.
use healthkit.Base.{
  ◌+◌, ◌≤◌, ◌≡◌, refl, ◌↔◌, ◌⊎◌, true, false, codes, List, [], none, some, Result, ok, err, Text,
  min, if◌then◌else◌, arith,
}
use healthkit.Async.{Time, Outcome, done, hangs, Async, pure, ◌>>=◌}
use healthkit.Duration.{from_secs}
use healthkit.Registry.{Emission, text_eq}
use healthkit.Routes.{StatusCode, service_unavailable, Response, Handler}
use healthkit.Service.{AtomicBool, App, Signals, first_signal, shutdown_signal}
use healthkit.Service.Draining.{Signalled, QuietSignals, shutdown_signal_iff}
use healthkit.Service.Routing.{handler_of}
use healthkit.Service.Run.{Host, Serving, or_default, run}
use healthkit.Service.Life.{Launches, Fails}
use healthkit.Service.Startup.{run_starts}
use healthkit.Service.Serves.{run_ready}
use healthkit.Service.Ending.{Stops, run-Ends}
use healthkit.Service.Ready.{deadline, DatabaseReady, CacheReady}
use healthkit.Examples.Fixtures.{rt, with_metrics, store}
use healthkit.Examples.Dependencies.{server, quick}
use healthkit.Examples.Serving.{url}

abbrev race : Outcome (Unit {0}) → Outcome (Unit {0}) → Outcome (Unit {0})
race (done t x) (done u y) = done (min t u) tt
race (done t x) other = done t tt
race first (done u y) = done u tt
race first other = hangs

abbrev select : Async (Unit {0}) → Async (Unit {0}) → Async (Unit {0})
select f g now = race (f now) (g now)

module _ (f g : Async (Unit {0})) (now : Time) where
  race_done :
      (t u : Time) → f now ≡ done t tt → g now ≡ done u tt → select f g now ≡ done (min t u) tt
  race_done t u e e' = rw (e, e') refl

  race_left : (t : Time) → f now ≡ done t tt → g now ≡ hangs → select f g now ≡ done t tt
  race_left t e e' = rw (e, e') refl

  race_right : (u : Time) → f now ≡ hangs → g now ≡ done u tt → select f g now ≡ done u tt
  race_right u e e' = rw (e, e') refl

  race_hangs : f now ≡ hangs → g now ≡ hangs → select f g now ≡ hangs
  race_hangs e e' = rw (e, e') refl

-- SIGTERM arrives after three seconds, SIGINT never.
abbrev signals : Signals
signals = record {
  SignalError = Text;
  ctrl_c = λ now. hangs;
  Terminate = Text;
  install = λ now. ok (codes "SIGTERM");
  recv = λ sig now. done (from_secs 3) (some tt);
  select = select;
  select_done = race_done;
  select_left = race_left;
  select_right = race_right;
  select_hangs = race_hangs;
}

abbrev closed : Text → App → Async (Unit {0})
closed listener app now = done (now + 9) tt

abbrev serve : Text → App → Async (Unit {0}) → Async (Result (Unit {0}) Text)
serve listener app signal = do s ← signal; u ← closed listener app; pure (ok tt)

module _ (listener : Text) (app : App) (signal : Async (Unit {0})) (now : Time) where
  serve_drains :
      (t : Time)
      → signal now ≡ done t tt
      → serve listener app signal now ≡ (closed listener app >>= λ u. pure (ok tt)) t
  serve_drains t e = rw e refl

  serve_hangs : signal now ≡ hangs → serve listener app signal now ≡ hangs
  serve_hangs e = rw e refl

-- A host with a redis server and a default address and database.
abbrev host : Host quick Text
host = record {
  IoError = Text;
  join_failed = λ e. e;
  var = λ name. if text_eq name (codes "REDIS_URL") then url else none;
  connect = λ database_url now. done (now + 5) (ok database_url);
  Listener = Text;
  bind_to = λ address now. done (now + 1) (ok address);
  signals = signals;
  closed = closed;
  serve = serve;
  serve_drains = serve_drains;
  serve_hangs = serve_hangs;
}

quiet : (began : Time) → QuietSignals signals began
quiet began = (tt, λ sig e. tt)

starts :
    Launches rt server quick host with_metrics store 7
      (codes "sqlite::memory:")
      13
      (codes "0.0.0.0:3000")
unfolding or_default text_eq
starts = (12, refl, refl, refl)

abbrev calm : AtomicBool
calm now = false

shutdown_signal_iff_example :
    (shutdown_signal signals 13 calm (from_secs 4) ≡ true)
    ↔ ((calm (from_secs 4) ≡ true) ⊎ ((t : Time) × (t ≤ from_secs 4) × Signalled signals 13 t))
shutdown_signal_iff_example = shutdown_signal_iff signals 13 (quiet 13) calm (from_secs 4)

run_starts_example :
    (serving : Serving rt server quick host) × (run rt server quick host with_metrics store 7
      ≡ host.serve (codes "0.0.0.0:3000") serving.routes (first_signal host.signals) 13)
    × (handler : Handler) × (handler_of (codes "/startupz") serving.routes.router ≡ some handler)
    × (t : Time) × (response : Response) × (handler serving.store (from_secs 2)
        ≡ done t (response, []))
    × (response.status ≡ StatusCode.ok)
    × (t ≤ from_secs 2 + deadline + rt.lag)
run_starts_example =
    run_starts rt server quick host with_metrics store 7 13 (from_secs 2) (codes "sqlite::memory:")
      (codes "0.0.0.0:3000") starts (omega arith)

run_ready_example :
    (serving : Serving rt server quick host) × (run rt server quick host with_metrics store 7
      ≡ host.serve (codes "0.0.0.0:3000") serving.routes (first_signal host.signals) 13)
    × (handler : Handler) × (handler_of (codes "/readyz") serving.routes.router ≡ some handler)
    × (t : Time) × (response : Response) × (emitted : List Emission) × (handler serving.store
          (from_secs 2)
        ≡ done t (response, emitted))
    × ((response.status ≡ StatusCode.ok) ↔ (
        DatabaseReady (from_secs 2) rt quick (codes "sqlite::memory:")
        × CacheReady (from_secs 2) rt server (host.var (codes "REDIS_URL"))
        × (¬ ((u : Time) × (u ≤ from_secs 2) × Signalled host.signals 13 u))))
    × ((response.status ≡ StatusCode.ok) ⊎ (response.status ≡ service_unavailable))
    × (t ≤ from_secs 2 + deadline + rt.lag)
run_ready_example =
    run_ready rt server quick host with_metrics store 7 13 (from_secs 2) (codes "sqlite::memory:")
      (codes "0.0.0.0:3000") starts (quiet 13) (omega arith) refl tt

run-Ends_example :
    ((e : Text)
      → (run rt server quick host with_metrics store 7 ≡ done (from_secs 3 + 9) (err e))
        ↔ Fails rt server quick host with_metrics store 7 (from_secs 3 + 9) e)
    × ((run rt server quick host with_metrics store 7 ≡ done (from_secs 3 + 9) (ok tt))
        ↔ Stops rt server quick host with_metrics store 7 (from_secs 3 + 9))
run-Ends_example = run-Ends rt server quick host with_metrics store quiet 7 (from_secs 3 + 9)

-- The service stops: the signal comes three seconds after the start of the clock, and the last
-- connection is closed a moment later.
run_stops : run rt server quick host with_metrics store 7 ≡ done (from_secs 3 + 9) (ok tt)
unfolding run or_default text_eq first_signal
run_stops = refl
