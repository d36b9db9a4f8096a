-- ===== src/Scrapes/Staleness.antt =====
-- src/metrics.rs, `render` by many scrapes at once: what an answer without a sweep is, and how old.
use healthkit.Base.{◌+◌, ◌≤◌, ◌<◌, ◌≡◌, ◌⊎◌, false, Text, List, [], ◌∷◌, Option, none, some, All}
use healthkit.Async.{Time, done}
use healthkit.Async.Runtime.{Runtime}
use healthkit.Duration.{Duration}
use healthkit.Types.{CheckResult}
use healthkit.Registry.{Features, Emission, check_all}
use healthkit.Metrics.{Float, render_prometheus}
use healthkit.Scrapes.Cache.{MetricsState, lookup}
use healthkit.Scrapes.Crowd.{Scrape, Event, swept, wrote, served, Crowd, last_write}

-- The scrape began to sweep.
abbrev pub Began : Scrape → List Event → Type 0
Began x [] = ⊥
Began x (swept y ∷ log) = (x ≡ y) ⊎ Began x log
Began x (wrote y at body ∷ log) = Began x log
Began x (served t body ∷ log) = Began x log

module _ (rt : Runtime) (features : Features) (f : Float) (state : MetricsState) where
  -- The rendering of the results of the scrape's sweep, which was over at `now`.
  abbrev pub IsRendering : Scrape → Time → Text → Type 0
  IsRendering x now body =
      (results : List CheckResult) × (emitted : List Emission) × (u : Time) × (check_all rt features
          x.store state.registry x.began
        ≡ done u (results, emitted))
      × (body ≡ render_prometheus f results)
      × (x.began ≤ u)
      × (u ≤ now)

  -- An answer at `t` is the last rendering that was written before it, less than the time to live
  -- ago, by a scrape that had begun to sweep.
  abbrev pub IsFresh : Duration → Time → Text → List Event → Option (Scrape × Time × Text) → Type 0
  IsFresh ttl t body log none = ⊥
  IsFresh ttl t body log (some (x, at, rendered)) =
      (body ≡ rendered) × Began x log × IsRendering x at rendered × (at ≤ t) × (t < at + ttl)

  -- Each answer without a sweep is, in view of what was before it.
  abbrev pub AllFresh : Duration → List Event → Type 0
  AllFresh ttl [] = Unit
  AllFresh ttl (swept x ∷ log) = AllFresh ttl log
  AllFresh ttl (wrote x at body ∷ log) = AllFresh ttl log
  AllFresh ttl (served t body ∷ log) = IsFresh ttl t body log (last_write log) × AllFresh ttl log

  abbrev entry_of : Option (Scrape × Time × Text) → Option (Time × Text)
  entry_of none = none
  entry_of (some (x, at, body)) = some (at, body)

  abbrev Written : Time → List Event → Option (Scrape × Time × Text) → Type 0
  Written now log none = Unit
  Written now log (some (x, at, body)) = Began x log × IsRendering x at body × (at ≤ now)

  abbrev Sweeping : List Event → Scrape → Type 0
  Sweeping log x = (lookup state x.cell x.began ≡ none) × Began x log

  record IsSound (ttl : Duration) (v : Crowd) : Type 0 where
    clean : v.cell.poisoned ≡ false
    holds : v.cell.entry ≡ entry_of (last_write v.log)
    written : Written v.now v.log (last_write v.log)
    flying : All (Sweeping v.log) v.sweeping
    fresh : AllFresh ttl v.log
