-- ===== src/Service/Scraped.antt =====
-- examples/k8s_service.rs: what a scrape of the service answers.
use healthkit.Base.{
  ◌+◌, ◌≤◌, ◌≡◌, refl, ap, ◌⊎◌, inl, inr, List, [], ◌∷◌, map, Option, none, some, Text,
}
use healthkit.Async.{Time, done}
use healthkit.Async.Runtime.{Runtime}
use healthkit.Duration.{Duration}
use healthkit.Types.{CheckResult}
use healthkit.Registry.{RegisteredCheck, Store, Features, Emission, checks_of}
use healthkit.Registry.Reports.{Reports}
use healthkit.Registry.Sweeps.{AllAnswer, AllReport}
use healthkit.Routes.{StatusCode, plain, Response}
use healthkit.Metrics.{Float}
use healthkit.Metrics.Exposition.{parse_exposition}
use healthkit.Metrics.RoundTrip.{expected}
use healthkit.Scrapes.{Cell, MetricsState, lookup, remember, metrics_handler}
use healthkit.Scrapes.Cached.{metrics_handler-Returns}
use healthkit.Checks.Redis
use healthkit.Checks.Sqlx
use healthkit.Checks.SqlxOutcomes
use healthkit.Service.Setup.{AtomicBool, setup, app}
use healthkit.Service.Wiring.{registered, setup-Has}
use healthkit.Service.Ready.{deadline}
use healthkit.Service.Probes.{ends_soon, all_answer}

-- A result has the name of its check.
name_of :
    (lag d : Duration) (now : Time) (c : RegisteredCheck) (r : CheckResult)
    → Reports lag d c now r
    → r.name ≡ c.name
name_of lag d now c r (Reports.returned t s e soon eq) = ap (λ (x : CheckResult). x.name) eq
name_of lag d now c r (Reports.failed t x e soon eq) = ap (λ (x : CheckResult). x.name) eq
name_of lag d now c r (Reports.timed_out t pos late from to eq) =
    ap (λ (x : CheckResult). x.name) eq

names_of :
    (lag d : Duration) (now : Time) (cs : List RegisteredCheck) (rs : List CheckResult)
    → AllReport lag d now cs rs
    → map (λ r. r.name) rs ≡ map (λ c. c.name) cs
names_of lag d now [] [] h = refl
names_of lag d now [] (r ∷ rs) h = absurd h
names_of lag d now (c ∷ cs) [] h = absurd h
names_of lag d now (c ∷ cs) (r ∷ rs) h =
    rw (name_of lag d now c r h.0, names_of lag d now cs rs h.1)

-- What a scrape answers for a registry with these checks and that deadline.
abbrev pub ScrapeAnswer :
    Duration
    → Float
    → Time
    → List RegisteredCheck
    → MetricsState
    → Cell
    → Time
    → Text
    → Cell
    → List Emission
    → Type 0
ScrapeAnswer lag f now cs state cell t body cell' emitted =
    ((lookup state cell now ≡ some body) × (t ≡ now) × (cell' ≡ cell) × (emitted ≡ []))
    ⊎ ((lookup state cell now ≡ none)
        × ((results : List CheckResult) × AllReport lag deadline now cs results
            × (map (λ r. r.name) results ≡ map (λ c. c.name) cs)
            × (parse_exposition body ≡ some (expected f results))
            × (cell' ≡ remember state t body cell)
            × (t ≤ now + deadline + lag)))

scraped_of :
    (rt : Runtime) (features : Features) (f : Float) (state : MetricsState) (s : Store)
    (cell : Cell) (now : Time) (cs : List RegisteredCheck)
    → state.registry.default_timeout ≡ deadline
    → checks_of s state.registry ≡ cs
    → AllAnswer deadline now cs
    → (t : Time) × (response : Response) × (body : Text) × (cell' : Cell) × (emitted : List
        Emission)
      × (metrics_handler rt features f state s cell now ≡ done t (response, cell', emitted))
      × (response.status ≡ StatusCode.ok)
      × (response.body ≡ plain body)
      × ScrapeAnswer rt.lag f now cs state cell t body cell' emitted
scraped_of rt features f state s cell now cs e e' h =
    let (t, response, body, cell', emitted, ran, good, text, how) =
      metrics_handler-Returns rt features f state s cell now (rw (e, e') h) in
    (
      t,
      response,
      body,
      cell',
      emitted,
      ran,
      good,
      text,
      elim how [
        | inl hit ↦ inl hit
        | inr (miss, (results, reports, parsed, (kept, holds), soon)) ↦
            let reports' : AllReport rt.lag deadline now cs results = rw (e, e') at reports in
            inr (
              miss,
              (
                results,
                reports',
                names_of rt.lag deadline now cs results reports',
                parsed,
                kept,
                ends_soon (now + deadline + rt.lag) t (rw e at soon),
              ),
            )
      ],
    )

module _ (rt : Runtime) (redis : Redis.RedisClient) (db : Sqlx.Database) (pool : db.Pool)
    (redis_url : Option Text) (draining initialized : AtomicBool) (now : Time) (features : Features)
    (f : Float) (s : Store) (cell : Cell) where
  -- Whatever the redis server and the blocking pool do, and unless the database driver unwinds
  -- before the deadline, the service's `/metrics` responds with 200. Either the answer is the
  -- remembered one, at once; or the checks were swept, a reader of the body finds exactly the samples
  -- of what the database, the redis server if there is one, the initialization and the draining are
  -- to report, in this order and under these names, the body is remembered, and the
  -- response is there by the deadline of two seconds and the lag of the timer.
  pub service_scraped :
      SqlxOutcomes.AnswersOrLate rt db
        (Sqlx.new db pool deadline 500)
        now
        (db.execute Sqlx.probe_query pool now)
      → (t : Time) × (response : Response) × (body : Text) × (cell' : Cell) × (emitted : List
          Emission)
        × (metrics_handler rt features f
              (app rt features
                (setup rt redis db pool redis_url draining initialized s).0).metrics.1.0
              (setup rt redis db pool redis_url draining initialized s).1
              cell
              now
            ≡ done t (response, cell', emitted))
        × (response.status ≡ StatusCode.ok)
        × (response.body ≡ plain body)
        × ScrapeAnswer rt.lag f now
            (registered rt redis db pool redis_url draining initialized)
            (app rt features
              (setup rt redis db pool redis_url draining initialized s).0).metrics.1.0
            cell
            t
            body
            cell'
            emitted
  unfolding app
  service_scraped h =
      let (two_seconds, has) = setup-Has rt redis db pool redis_url draining initialized s in
      scraped_of rt features f _ _ cell now _ two_seconds has.1
        (all_answer rt redis db pool redis_url draining initialized now redis_url h)
