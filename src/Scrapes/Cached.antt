-- ===== src/Scrapes/Cached.antt =====
-- src/metrics.rs, `render` and `metrics_handler`: what a scrape answers, fresh and from the cache.
use healthkit.Base.{
  ◌+◌, ◌≤◌, ◌<◌, ◌≡◌, refl, sym, ◌∙◌, ◌⊎◌, inl, inr, true, false, Bool-cases, Text, List, [],
  Option, none, some, flat_map, if◌then◌else◌, arith,
}
use healthkit.Async.{Time, Outcome, done, panicked, hangs}
use healthkit.Async.Runtime.{Runtime}
use healthkit.Duration.{Duration}
use healthkit.Types.{CheckResult}
use healthkit.Registry.{Store, Features, Emission, checks_of, check_all, emit_facade_metrics}
use healthkit.Registry.Reports.{EndsBy}
use healthkit.Registry.Sweeps.{AllAnswer, AllReport, check_all-Reports}
use healthkit.Routes.{StatusCode, plain, Response}
use healthkit.Metrics.{Float, render_prometheus}
use healthkit.Metrics.Exposition.{parse_exposition}
use healthkit.Metrics.RoundTrip.{expected, parse-render_prometheus}
use healthkit.Scrapes.Cache.{
  Cell, MetricsState, lookup, remember_ttl, remember, refresh, render, exposition_response,
  metrics_handler,
}

pub Option-cases : (o : Option Text) → (o ≡ none) ⊎ ((a : Text) × (o ≡ some a))
Option-cases none = inl refl
Option-cases (some a) = inr (a, refl)

-- What a write leaves behind a lock that is not poisoned.
pub remember_clean :
    (state : MetricsState) (ttl : Duration) (t : Time) (body : Text) (cell : Cell)
    → state.ttl ≡ some ttl
    → cell.poisoned ≡ false
    → remember state t body cell ≡ record cell { entry = some (t, body) }
unfolding remember
remember_clean state ttl t body cell e clean = rw (e, clean)

-- What a sweep leaves in the cell: with a time to live and a lock that is not poisoned, the body and
-- the instant; else what was there.
abbrev pub Remembers : Option Duration → Time → Text → Cell → Cell → Type 0
Remembers none t body cell cell' = cell' ≡ cell
Remembers (some ttl) t body cell cell' =
    ((cell.poisoned ≡ true) × (cell' ≡ cell))
    ⊎ ((cell.poisoned ≡ false) × (cell' ≡ record { poisoned = false; entry = some (t, body) }))

remember_ttl-Remembers :
    (o : Option Duration) (t : Time) (body : Text) (cell : Cell)
    → Remembers o t body cell (remember_ttl o t body cell)
unfolding remember_ttl
remember_ttl-Remembers none t body cell = refl
remember_ttl-Remembers (some ttl) t body cell = elim (Bool-cases cell.poisoned) [
  | inl bad ↦ inl (bad, rw bad refl)
  | inr clean ↦ inr (clean, rw clean refl)
]

pub remember-Remembers :
    (state : MetricsState) (t : Time) (body : Text) (cell : Cell)
    → Remembers state.ttl t body cell (remember state t body cell)
unfolding remember
remember-Remembers state t body cell = remember_ttl-Remembers state.ttl t body cell

module _ (rt : Runtime) (features : Features) (f : Float) (state : MetricsState) where
  -- A scrape that has its answer in the cache ends at once, and sweeps and changes nothing.
  pub render_hit :
      (s : Store) (cell : Cell) (now : Time) (body : Text)
      → lookup state cell now ≡ some body
      → render rt features f state s cell now ≡ done now (body, cell, [])
  unfolding render
  render_hit s cell now body e = rw e

  pub render_miss :
      (s : Store) (cell : Cell) (now : Time)
      → lookup state cell now ≡ none
      → render rt features f state s cell now ≡ refresh rt features f state s cell now
  unfolding render
  render_miss s cell now e = rw e

module _ (rt : Runtime) (features : Features) (f : Float) (state : MetricsState) (s : Store)
    (cell : Cell) where
  pub stored :
      (now t : Time) (body : Text) (cell' : Cell) (emitted : List Emission)
      (o : Outcome (List CheckResult × List Emission))
      → check_all rt features s state.registry now ≡ o
      → refresh rt features f state s cell now ≡ done t (body, cell', emitted)
      → cell' ≡ remember state t body cell
  unfolding refresh
  stored now t body cell' emitted (done u (rs, em)) e h = ground arith
  stored now t body cell' emitted (panicked u) e h = ground arith
  stored now t body cell' emitted hangs e h = ground arith

  remembered :
      (ttl : Duration) (t later : Time) (body : Text)
      → state.ttl ≡ some ttl
      → cell.poisoned ≡ false
      → t ≤ later
      → later < t + ttl
      → lookup state (remember state t body cell) later ≡ some body
  unfolding lookup remember
  remembered ttl t later body e clean from to = ground arith

  -- Once a scrape that found nothing in the cache has ended with an answer, every scrape before the
  -- time to live is over gets the same answer at once, without a sweep, if the lock is not poisoned.
  pub render-cached :
      (ttl : Duration) (now t later : Time) (body : Text) (cell' : Cell) (emitted : List Emission)
      (s' : Store)
      → state.ttl ≡ some ttl
      → cell.poisoned ≡ false
      → lookup state cell now ≡ none
      → render rt features f state s cell now ≡ done t (body, cell', emitted)
      → t ≤ later
      → later < t + ttl
      → render rt features f state s' cell' later ≡ done later (body, cell', [])
  render-cached ttl now t later body cell' emitted s' e clean miss ran from to =
      let kept : cell' ≡ remember state t body cell =
        stored now t body cell' emitted (check_all rt features s state.registry now) refl
          (sym (render_miss rt features f state s cell now miss) ∙ ran) in
      render_hit rt features f state s' cell' later body
        (rw kept (remembered ttl t later body e clean from to))

  -- If each registered check answers, `/metrics` responds with 200, also where checks are
  -- unhealthy. Either the answer was in the cache, is there at once, and nothing is emitted or
  -- written; or the checks were swept, a reader of the body finds exactly the samples of what the
  -- checks are to report, and under a deadline the response is there at the deadline and the lag of
  -- the timer. The cell then holds the body and the instant if there is a time to live and the lock
  -- is not poisoned, and else what it held before.
  pub metrics_handler-Returns :
      (now : Time)
      → AllAnswer state.registry.default_timeout now (checks_of s state.registry)
      → (t : Time) × (response : Response) × (body : Text) × (cell' : Cell) × (emitted : List
          Emission)
        × (metrics_handler rt features f state s cell now ≡ done t (response, cell', emitted))
        × (response.status ≡ StatusCode.ok)
        × (response.body ≡ plain body)
        × (((lookup state cell now ≡ some body) × (t ≡ now) × (cell' ≡ cell) × (emitted ≡ []))
            ⊎ ((lookup state cell now ≡ none)
                × ((results : List CheckResult) × AllReport rt.lag state.registry.default_timeout
                      now
                      (checks_of s state.registry)
                      results
                    × (parse_exposition body ≡ some (expected f results))
                    × ((cell' ≡ remember state t body cell) × Remembers state.ttl t body cell cell')
                    × EndsBy
                        (now + state.registry.default_timeout + rt.lag)
                        state.registry.default_timeout
                        t)))
  unfolding metrics_handler refresh
  metrics_handler-Returns now h = elim (Option-cases (lookup state cell now)) [
    | inl miss ↦
        let (t, results, e, reports, soon) = check_all-Reports rt features s state.registry now h in
        (
          t,
          exposition_response (render_prometheus f results),
          render_prometheus f results,
          remember state t (render_prometheus f results) cell,
          if features.metrics then flat_map emit_facade_metrics results else [],
          rw (miss, e),
          refl,
          refl,
          inr (
            miss,
            (
              results,
              reports,
              parse-render_prometheus f results,
              (refl, remember-Remembers state t _ cell),
              soon,
            ),
          ),
        )
    | inr (body, hit) ↦ (
      now,
      exposition_response body,
      body,
      cell,
      [],
      rw hit,
      refl,
      refl,
      inl (hit, refl, refl, refl),
    )
  ]
