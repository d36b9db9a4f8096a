-- ===== src/Scrapes/Cache.antt =====
-- src/metrics.rs: the state of the scrapes and their handler. The cell is what stands behind the
-- `Arc<RwLock<…>>` of the cache, which all clones of the state share.
use healthkit.Base.{
  ◌-◌, Bool, false, Text, codes, List, [], ◌∷◌, Option, none, some, ltb, if◌then◌else◌,
}
use healthkit.Async.{Time, Async, pure, instant_now, ◌>>=◌}
use healthkit.Async.Runtime.{Runtime}
use healthkit.Duration.{Duration}
use healthkit.Registry.{HealthRegistry, Store, Features, Emission, check_all}
use healthkit.Routes.{StatusCode, plain, Response}
use healthkit.Metrics.{Float, render_prometheus}

pub record Cell : Type 0 where
  pub poisoned : Bool
  -- When the exposition was stored, and the exposition.
  pub entry : Option (Time × Text)

pub record MetricsState : Type 0 where
  pub registry : HealthRegistry
  pub ttl : Option Duration

-- `Arc::new(RwLock::new(None))`
abbrev pub new_cell : Cell
new_cell = record { poisoned = false; entry = none }

unfoldable pub new : HealthRegistry → MetricsState × Cell
new registry = (record { registry = registry; ttl = none }, new_cell)

unfoldable pub with_cache : HealthRegistry → Duration → MetricsState × Cell
with_cache registry ttl = (record { registry = registry; ttl = some ttl }, new_cell)

unfoldable pub young : Duration → Time → Option (Time × Text) → Option Text
young ttl now none = none
young ttl now (some (at, body)) = if ltb (now - at) ttl then some body else none

-- A poisoned lock is read all the same.
unfoldable pub cached_within : Duration → Cell → Time → Option Text
unfolding young
cached_within ttl cell now = young ttl now cell.entry

unfoldable pub lookup_ttl : Option Duration → Cell → Time → Option Text
unfolding cached_within
lookup_ttl none cell now = none
lookup_ttl (some ttl) cell now = cached_within ttl cell now

-- The early return of `render`.
unfoldable pub lookup : MetricsState → Cell → Time → Option Text
unfolding lookup_ttl
lookup state cell now = lookup_ttl state.ttl cell now

unfoldable pub remember_ttl : Option Duration → Time → Text → Cell → Cell
remember_ttl none at rendered cell = cell
remember_ttl (some ttl) at rendered cell =
    if cell.poisoned then cell else record cell { entry = some (at, rendered) }

-- The write behind the sweep: a poisoned lock is not written.
unfoldable pub remember : MetricsState → Time → Text → Cell → Cell
unfolding remember_ttl
remember state at rendered cell = remember_ttl state.ttl at rendered cell

-- A tuple without a status code is a response with 200.
unfoldable pub exposition_response : Text → Response
exposition_response body = record {
  status = StatusCode.ok;
  headers = (codes "content-type", codes "text/plain; version=0.0.4; charset=utf-8") ∷ [];
  body = plain body;
}

module _ (rt : Runtime) (features : Features) (f : Float) where
  -- The sweep and the write of a scrape that found nothing in the cache.
  unfoldable pub refresh : MetricsState → Store → Cell → Async (Text × Cell × List Emission)
  refresh state s cell = do
    (results, emitted) ← check_all rt features s state.registry
    let rendered = render_prometheus f results
    at ← instant_now
    pure (rendered, remember state at rendered cell, emitted)

  unfoldable pub serve :
      MetricsState → Store → Cell → Option Text → Async (Text × Cell × List Emission)
  unfolding refresh
  serve state s cell (some body) = pure (body, cell, [])
  serve state s cell none = refresh state s cell

  unfoldable pub render : MetricsState → Store → Cell → Async (Text × Cell × List Emission)
  unfolding serve lookup
  render state s cell now = serve state s cell (lookup state cell now) now

  unfoldable pub metrics_handler :
      MetricsState → Store → Cell → Async (Response × Cell × List Emission)
  unfolding render exposition_response
  metrics_handler state s cell = do
    (body, cell', emitted) ← render state s cell
    pure (exposition_response body, cell', emitted)

-- The path of the route, and the state behind its handler.
unfoldable pub metrics_route : HealthRegistry → Text × (MetricsState × Cell)
unfolding new
metrics_route registry = (codes "/metrics", new registry)

unfoldable pub metrics_route_with_cache : HealthRegistry → Duration → Text × (MetricsState × Cell)
unfolding with_cache
metrics_route_with_cache registry ttl = (codes "/metrics", with_cache registry ttl)
