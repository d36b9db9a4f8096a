-- ===== src/Examples/Interleaved.antt =====
-- src/registry.rs: a check is registered while a sweep of the registry runs.
use healthkit.Base.{refl, codes, [], ◌∷◌, none, All, arith, ◌+◌}
use healthkit.Duration.{from_millis}
use healthkit.Registry.Histories.{Event, register, apply}
use healthkit.Registry.Interleavings.{
  World, Running, Finished, Reach, here, next, wait, event, begin, finish, ReportsFound,
  Reach-ReportsFound,
}
use healthkit.Examples.Fixtures.{rt, with_metrics, store, small, stuck}
use healthkit.Examples.Sweeps.{db_result, db_emitted, small_sweep}

abbrev late_event : Event
late_event = register small none (codes "late") stuck

abbrev sweep : Running
sweep = record { registry = small; began = 7; found = store }

abbrev swept : Finished
swept = record { registry = small; began = 7; found = store; results = db_result ∷ [] }

-- The sweep that began before the registration of `late` reports the check that was there.
abbrev final : World
final = record {
  now = 7 + from_millis 3;
  store = apply late_event store;
  running = [];
  finished = swept ∷ [];
}

final-Reach : Reach rt with_metrics store 7 final
final-Reach =
    next
      (next (next (next here (begin small (omega arith))) (event late_event (omega arith)))
        (wait (from_millis 3)))
      (finish [] sweep [] (db_result ∷ []) db_emitted refl small_sweep)

Reach-ReportsFound_example : All (ReportsFound rt with_metrics final.store) final.finished
Reach-ReportsFound_example = Reach-ReportsFound rt with_metrics final-Reach
