-- ===== src/Examples/Serving.antt =====
-- examples/k8s_service.rs over a database and a redis server that answer.
use healthkit.Base.{
  Text, ◌+◌, ◌≤◌, ◌≡◌, refl, ◌↔◌, ◌⊎◌, true, false, codes, List, [], some, Option, Text, leb,
}
use healthkit.Async.{Time, done}
use healthkit.Duration.{from_secs}
use healthkit.Registry.{Emission}
use healthkit.Routes.{
  StatusCode, service_unavailable, plain, Response, default_config, readiness_handler,
  startup_handler,
}
use healthkit.Metrics.Exact.{exact}
use healthkit.Scrapes.{Cell, new_cell, metrics_handler}
use healthkit.Service.{AtomicBool, setup, app}
use healthkit.Service.Ready.{deadline, DatabaseReady, CacheReady}
use healthkit.Service.Wiring.{registered}
use healthkit.Service.Scraped.{ScrapeAnswer, service_scraped}
use healthkit.Service.Probes.{service_ready_iff}
use healthkit.Service.Phases.{service_started_iff}
use healthkit.Examples.Fixtures.{rt, with_metrics, store}
use healthkit.Examples.Dependencies.{server, quick}

-- Set after a second.
abbrev initialized : AtomicBool
initialized now = leb (from_secs 1) now

abbrev never : AtomicBool
never now = false

abbrev pub url : Option Text
url = some (codes "redis://127.0.0.1:6379")

service_ready_iff_example :
    (t : Time) × (response : Response) × (emitted : List Emission) × (readiness_handler rt
        with_metrics
        (record {
          registry = (setup rt server quick (codes "pool") url never initialized store).0;
          config = default_config;
        })
        (setup rt server quick (codes "pool") url never initialized store).1
        (from_secs 2)
      ≡ done t (response, emitted))
    × ((response.status ≡ StatusCode.ok) ↔ (
        DatabaseReady (from_secs 2) rt quick (codes "pool")
        × CacheReady (from_secs 2) rt server url
        × (initialized (from_secs 2) ≡ true)
        × (never (from_secs 2) ≡ false)))
    × ((response.status ≡ StatusCode.ok) ⊎ (response.status ≡ service_unavailable))
    × (t ≤ from_secs 2 + deadline + rt.lag)
service_ready_iff_example =
    service_ready_iff rt server quick (codes "pool") url never initialized (from_secs 2)
      with_metrics store refl tt

service_started_iff_example :
    (t : Time) × (response : Response) × (startup_handler rt with_metrics
        (record {
          registry = (setup rt server quick (codes "pool") url never initialized store).0;
          group = some (codes "init");
        })
        (setup rt server quick (codes "pool") url never initialized store).1
        (from_secs 2)
      ≡ done t (response, []))
    × ((response.status ≡ StatusCode.ok) ↔ (initialized (from_secs 2) ≡ true))
    × ((response.status ≡ StatusCode.ok) ⊎ (response.status ≡ service_unavailable))
    × (t ≤ from_secs 2 + deadline + rt.lag)
service_started_iff_example =
    service_started_iff rt server quick (codes "pool") url with_metrics store (from_secs 2) never
      initialized

service_scraped_example :
    (t : Time) × (response : Response) × (body : Text) × (cell' : Cell) × (emitted : List Emission)
    × (metrics_handler rt with_metrics exact
          (app rt with_metrics
            (setup rt server quick (codes "pool") url never initialized store).0).metrics.1.0
          (setup rt server quick (codes "pool") url never initialized store).1
          new_cell
          (from_secs 2)
        ≡ done t (response, cell', emitted))
    × (response.status ≡ StatusCode.ok)
    × (response.body ≡ plain body)
    × ScrapeAnswer rt.lag exact
        (from_secs 2)
        (registered rt server quick (codes "pool") url never initialized)
        (app rt with_metrics
          (setup rt server quick (codes "pool") url never initialized store).0).metrics.1.0
        new_cell
        t
        body
        cell'
        emitted
service_scraped_example =
    service_scraped rt server quick (codes "pool") url never initialized (from_secs 2) with_metrics
      exact store new_cell tt
