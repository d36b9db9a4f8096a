-- ===== src/Examples/Scraping.antt =====
-- src/metrics.rs: scrapes with a cache of five seconds.
use healthkit.Base.{
  ◌+◌, ◌*◌, ◌≤◌, ◌≡◌, refl, length, ◌⊎◌, Text, codes, List, [], ◌∷◌, none, some, false, arith,
}
use healthkit.Async.{Time, done}
use healthkit.Duration.{from_secs, from_millis}
use healthkit.Types.{CheckResult, healthy}
use healthkit.Registry.{Emission, checks_of, check_all, emit_facade_metrics}
use healthkit.Registry.Sweeps.{AllReport}
use healthkit.Routes.{StatusCode, plain, Response}
use healthkit.Metrics.{render_prometheus}
use healthkit.Metrics.Exact.{exact}
use healthkit.Metrics.Exposition.{parse_exposition}
use healthkit.Metrics.RoundTrip.{expected}
use healthkit.Registry.Reports.{EndsBy}
use healthkit.Scrapes.{Cell, MetricsState, lookup, remember, render, metrics_handler}
use healthkit.Scrapes.Cached.{Remembers, render-cached, metrics_handler-Returns}
use healthkit.Scrapes.Idle.{IsIdle, IsIdle_iff}
use healthkit.Scrapes.Rate
use healthkit.Scrapes.Rate.{Scraper, Reach-sweeps}
use healthkit.Scrapes.Age.{Aged, Reach-Aged}
use healthkit.Scrapes.Crowd
use healthkit.Scrapes.Crowd.{Crowd, Scrape, swept, wrote, served}
use healthkit.Examples.Fixtures.{rt, with_metrics, store, small}

abbrev state : MetricsState
state = record { registry = small; ttl = some (from_secs 5) }

abbrev empty_cell : Cell
empty_cell = record { poisoned = false; entry = none }

-- What a sweep of the only check finds.
abbrev found : List CheckResult
found =
    record { name = codes "db"; status = healthy; message = none; duration = from_millis 3 } ∷ []

abbrev body : Text
body = render_prometheus exact found

abbrev swept_at : Time
swept_at = 7 + from_millis 3

abbrev filled : Cell
filled = remember state swept_at body empty_cell

abbrev emitted : List Emission
emitted =
    (emit_facade_metrics
      (record { name = codes "db"; status = healthy; message = none; duration = from_millis 3 }))

first_scrape :
    render rt with_metrics exact state store empty_cell 7 ≡ done swept_at (body, filled, emitted)
unfolding render check_all
first_scrape = refl

render-cached_example :
    render rt with_metrics exact state store filled (from_secs 5)
    ≡ done (from_secs 5) (body, filled, [])
render-cached_example =
    render-cached rt with_metrics exact state store empty_cell (from_secs 5) 7 swept_at
      (from_secs 5) body filled emitted store refl refl (unfold lookup in refl) first_scrape
      (omega arith) (omega arith)

metrics_handler-Returns_example :
    (t : Time) × (response : Response) × (text : Text) × (cell' : Cell) × (emissions : List
      Emission)
    × (metrics_handler rt with_metrics exact state store empty_cell 7
        ≡ done t (response, cell', emissions))
    × (response.status ≡ StatusCode.ok)
    × (response.body ≡ plain text)
    × (((lookup state empty_cell 7 ≡ some text) × (t ≡ 7) × (cell' ≡ empty_cell) × (emissions ≡ []))
        ⊎ ((lookup state empty_cell 7 ≡ none)
            × ((results : List CheckResult) × AllReport rt.lag small.default_timeout 7
                  (checks_of store small)
                  results
                × (parse_exposition text ≡ some (expected exact results))
                × ((cell' ≡ remember state t text empty_cell)
                    × Remembers state.ttl t text empty_cell cell')
                × EndsBy (7 + small.default_timeout + rt.lag) small.default_timeout t)))
metrics_handler-Returns_example =
    metrics_handler-Returns rt with_metrics exact state store empty_cell 7 (omega arith)

-- Where there is an answer in the cell, a scrape is idle; where there is none, it is not.
abbrev Idle : Cell → Time → Type 0
Idle cell now = IsIdle rt with_metrics exact state cell now

filled-Idle : (now : Time) → lookup state filled now ≡ some body → Idle filled now
filled-Idle now hit = (IsIdle_iff rt with_metrics exact state filled now).1 (body, hit)

not-Idle : ¬ Idle empty_cell 7
unfolding lookup
not-Idle idle = let (text, hit) = (IsIdle_iff rt with_metrics exact state empty_cell 7).0 idle in cc

-- The scraper asks again two seconds later.
abbrev scraper : Scraper
scraper = record {
  now = swept_at + from_secs 2;
  cell = filled;
  sweeps = (store, 7) ∷ [];
  answer = some (swept_at + from_secs 2, body);
}

scraper-Reach : Rate.Reach rt with_metrics exact state 7 empty_cell scraper
unfolding lookup remember
scraper-Reach =
    Rate.next
      (Rate.next
        (Rate.next Rate.begin (Rate.sweep store swept_at body filled emitted not-Idle first_scrape))
        (Rate.wait (from_secs 2)))
      (Rate.idle store (swept_at + from_secs 2) body filled [] (filled-Idle _ refl)
        (unfold render in refl))

Reach-sweeps_example : 7 + length scraper.sweeps * from_secs 5 ≤ scraper.now + from_secs 5
Reach-sweeps_example =
    Reach-sweeps rt with_metrics exact state (from_secs 5) 7 empty_cell scraper refl refl
      scraper-Reach

-- The answer of the scraper's second scrape.
Reach-Aged_example : Aged rt with_metrics exact state (from_secs 5) scraper.sweeps scraper.answer
Reach-Aged_example =
    Reach-Aged rt with_metrics exact state (from_secs 5) refl (omega arith) scraper scraper-Reach

-- Two scrapes find nothing at the same instant, and both sweep; one of them has written, and a
-- second later a third scrape is served from the cache, and the second one is dropped.
abbrev first_sweep : Scrape
first_sweep = record { began = 7; store = store; cell = empty_cell }

abbrev crowd : Crowd
crowd = record {
  now = swept_at + from_secs 1;
  cell = filled;
  sweeping = [];
  log =
      served (swept_at + from_secs 1) body
      ∷ wrote first_sweep swept_at body
      ∷ swept first_sweep
      ∷ swept first_sweep
      ∷ [];
}
