-- ===== src/Scrapes/Spacing.antt =====
-- src/metrics.rs, `render` by many scrapes at once: when a scrape makes the checks run.
use healthkit.Base.{◌+◌, ◌≤◌, ◌≡◌, false, Text, List, [], ◌∷◌, Option, none, some, All}
use healthkit.Async.{Time}
use healthkit.Async.Runtime.{Runtime}
use healthkit.Duration.{Duration}
use healthkit.Registry.{Features}
use healthkit.Metrics.{Float}
use healthkit.Scrapes.Cache.{MetricsState}
use healthkit.Scrapes.Crowd.{Event, swept, wrote, served, Crowd}

-- The writes are all as given.
abbrev Writes : (Time → Type 0) → Event → Type 0
Writes P (swept x) = Unit
Writes P (wrote x at body) = P at
Writes P (served t body) = Unit

-- No sweep begins less than the time to live after a write that came before it.
abbrev pub Spaced : Duration → List Event → Type 0
Spaced ttl [] = Unit
Spaced ttl (wrote x at body ∷ log) = Spaced ttl log
Spaced ttl (served t body ∷ log) = Spaced ttl log
Spaced ttl (swept x ∷ log) = All (Writes (λ w. w + ttl ≤ x.began)) log × Spaced ttl log

module _ (rt : Runtime) (features : Features) (f : Float) (state : MetricsState) where
  -- The entry of the cell is the last write.
  abbrev Last : Option (Time × Text) → Time → List Event → Type 0
  Last none now log = All (Writes (λ w. ⊥)) log
  Last (some (at, body)) now log = (at ≤ now) × All (Writes (λ w. w ≤ at)) log

  record IsSound (ttl : Duration) (v : Crowd) : Type 0 where
    clean : v.cell.poisoned ≡ false
    last : Last v.cell.entry v.now v.log
    spaced : Spaced ttl v.log
