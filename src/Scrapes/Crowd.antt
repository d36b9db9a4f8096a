-- ===== src/Scrapes/Crowd.antt =====
-- src/metrics.rs, `render` by many scrapes at once: between the lookup, the end of a sweep and the
-- write of its rendering, other scrapes take steps. A scrape for which it does not matter what the
-- checks do is one step; any other one begins, and later writes, unwinds, or is dropped.
use healthkit.Base.{◌+◌, ◌≤◌, ◌≡◌, Text, List, [], ◌∷◌, ◌++◌, Option, none, some}
use healthkit.Async.{Time, done}
use healthkit.Async.Runtime.{Runtime}
use healthkit.Duration.{Duration}
use healthkit.Registry.{Store, Features, Emission}
use healthkit.Metrics.{Float}
use healthkit.Scrapes.Cache.{Cell, MetricsState, new_cell, remember, render}
use healthkit.Scrapes.Idle.{IsIdle}

-- A scrape that sweeps: when it began, and the vectors and the cell as it found them.
pub record Scrape : Type 0 where
  pub began : Time
  pub store : Store
  pub cell : Cell

-- A scrape begins to sweep, it writes its rendering, or another one is answered without a sweep.
pub data Event : Type 0 where
  swept : Scrape → Event
  wrote : Scrape → Time → Text → Event
  served : Time → Text → Event

-- The shared cell, the sweeps that are neither written nor given up, and what has happened, the
-- latest event first.
pub record Crowd : Type 0 where
  pub now : Time
  pub cell : Cell
  pub sweeping : List Scrape
  pub log : List Event

-- The last rendering that was written, with its scrape and instant.
abbrev pub last_write : List Event → Option (Scrape × Time × Text)
last_write [] = none
last_write (swept x ∷ log) = last_write log
last_write (wrote x at body ∷ log) = some (x, at, body)
last_write (served t body ∷ log) = last_write log

module _ (rt : Runtime) (features : Features) (f : Float) (state : MetricsState) where
  pub data Step (v : Crowd) : Crowd → Type 0 where
    wait : (d : Duration) → Step v (record v { now = v.now + d })
    idle :
        (s : Store) (t : Time) (body : Text) (cell : Cell) (emitted : List Emission)
        → IsIdle rt features f state v.cell v.now
        → render rt features f state s v.cell v.now ≡ done t (body, cell, emitted)
        → Step v (record v { cell = cell; log = served t body ∷ v.log })
    sweep :
        (s : Store)
        → ¬ IsIdle rt features f state v.cell v.now
        → Step v (record v {
          sweeping = record { began = v.now; store = s; cell = v.cell } ∷ v.sweeping;
          log = swept (record { began = v.now; store = s; cell = v.cell }) ∷ v.log;
        })
    -- The sweep is over, and its scrape gets the lock: it writes into the cell as it is by now.
    write :
        (before : List Scrape) (x : Scrape) (after : List Scrape) (u : Time) (body : Text)
        (cell : Cell) (emitted : List Emission)
        → v.sweeping ≡ before ++ x ∷ after
        → render rt features f state x.store x.cell x.began ≡ done u (body, cell, emitted)
        → u ≤ v.now
        → Step v (record v {
          cell = remember state v.now body v.cell;
          sweeping = before ++ after;
          log = wrote x v.now body ∷ v.log;
        })
    -- The scrape unwinds, or is dropped with its connection.
    give_up :
        (before : List Scrape) (x : Scrape) (after : List Scrape)
        → v.sweeping ≡ before ++ x ∷ after
        → Step v (record v { sweeping = before ++ after })

  -- What the scrapes come to from `now` on, with the cell of a new state.
  pub data Reach (now : Time) : Crowd → Type 0 where
    begin : Reach now (record { now = now; cell = new_cell; sweeping = []; log = [] })
    next : {v w : Crowd} → Reach now v → Step v w → Reach now w
