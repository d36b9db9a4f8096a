-- ===== src/Examples/Registrations.antt =====
-- src/registry.rs: registrations through shared handles.
use healthkit.Base.{◌≡◌, codes, List, [], ◌∷◌, ◌++◌, none, some, ok, err, arith, if◌then◌else◌}
use healthkit.Async.{Time, done}
use healthkit.Duration.{from_secs}
use healthkit.Types.{healthy}
use healthkit.Errors.{shutting_down}
use healthkit.Registry.{checks_of, new, add_check_inner, add_check_inner_async}
use healthkit.Registry.Sharing.{add_check_inner_async_lem}
use healthkit.Registry.Histories.{Event, create, register, run, registered_at, checks_of-run}
use healthkit.Examples.Fixtures.{rt, after, store, registry, small, stuck}

-- After the shutdown of the runtime.
add_check_inner_async_lem_example :
    (t : Time) × (add_check_inner_async rt small none
        (codes "queue")
        (after 1 (ok healthy))
        store
        (from_secs 4000)
      ≡ done t (
          if rt.accepts (from_secs 4000)
          then (add_check_inner small none (codes "queue") (after 1 (ok healthy)) store, ok tt)
          else (store, err shutting_down)))
add_check_inner_async_lem_example =
    add_check_inner_async_lem small none (codes "queue") (after 1 (ok healthy)) store rt
      (from_secs 4000)

abbrev history : List Event
history =
    register registry none (codes "queue") stuck
    ∷ create
    ∷ register small (some (codes "init")) (codes "seed") stuck
    ∷ register (record { checks = 3; default_timeout = 0 }) none (codes "late") stuck
    ∷ []

checks_of-run_example :
    checks_of (run history store) small
    ≡ checks_of store small ++ registered_at small.checks history
checks_of-run_example =
    checks_of-run history store small (omega arith) (unfold add_check_inner new in omega arith)
