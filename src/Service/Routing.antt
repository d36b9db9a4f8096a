-- ===== src/Service/Routing.antt =====
-- examples/k8s_service.rs: which handler the service has behind which path.
use healthkit.Base.{
  ◌≡◌, refl, Bool, true, not, ◌&&◌, Text, codes, List, [], ◌∷◌, map, Option, none, some,
  if◌then◌else◌,
}
use healthkit.Async.Runtime.{Runtime}
use healthkit.Duration.{from_secs}
use healthkit.Registry.{HealthRegistry, Features, text_eq}
use healthkit.Routes.{
  Router, Handler, default_config, readiness_handler, startup_handler, detailed_handler,
}
use healthkit.Service.Setup.{app}

-- The handler of the first route with this path.
abbrev pub handler_of : Text → Router → Option Handler
handler_of path [] = none
handler_of path (route ∷ routes) =
    if text_eq path route.path then some route.get else handler_of path routes

abbrev absent : Text → List Text → Bool
absent p [] = true
absent p (q ∷ qs) = not (text_eq p q) && absent p qs

abbrev pub all_distinct : List Text → Bool
all_distinct [] = true
all_distinct (p ∷ ps) = absent p ps && all_distinct ps

module _ (rt : Runtime) (features : Features) (registry : HealthRegistry) where
  -- `/readyz` and `/healthz/detailed` of the service answer alike, from the readiness handler over
  -- all checks that accepts `degraded`; `/startupz` runs the group `init` alone; `/metrics` keeps a
  -- rendering for five seconds; and no two paths are the same, so that the routes can be merged.
  pub app_routes :
      (handler_of (codes "/readyz") (app rt features registry).router
        ≡ some (
            readiness_handler rt features
              (record { registry = registry; config = default_config })))
      × (handler_of (codes "/healthz/detailed") (app rt features registry).router
          ≡ handler_of (codes "/readyz") (app rt features registry).router)
      × (handler_of (codes "/startupz") (app rt features registry).router
          ≡ some (
              startup_handler rt features
                (record { registry = registry; group = some (codes "init") })))
      × ((app rt features registry).metrics.1.0.ttl ≡ some (from_secs 5))
      × (all_distinct (
            codes "/healthz"
            ∷ codes "/ping"
            ∷ (app rt features registry).metrics.0
            ∷ map (λ route. route.path) (app rt features registry).router)
          ≡ true)
  unfolding app text_eq readiness_handler detailed_handler
  app_routes = (refl, refl, refl, refl, refl)
