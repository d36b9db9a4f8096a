-- ===== src/Scrapes/Age.antt =====
-- src/metrics.rs, `render` by one scraper: how old the results in an answer are.
use healthkit.Base.{
  ◌+◌, ◌≤◌, ◌<◌, ◌≡◌, refl, sym, ◌∙◌, inl, inr, false, Text, List, [], ◌∷◌, Option, none, some,
  arith,
}
use healthkit.Async.{Time, Outcome, done}
use healthkit.Async.Runtime.{Runtime}
use healthkit.Duration.{Duration}
use healthkit.Types.{CheckResult}
use healthkit.Registry.{Store, Features, Emission, check_all}
use healthkit.Registry.Reports.{EndsBy}
use healthkit.Registry.Sweeps.{check_all-Reports, check_all-after}
use healthkit.Registry.Ends.{check_all-Ends}
use healthkit.Metrics.{Float, render_prometheus}
use healthkit.Scrapes.Cache.{Cell, MetricsState, new_cell, young, lookup, refresh}
use healthkit.Scrapes.Cached.{remember_clean, stored, render_hit, render_miss}
use healthkit.Scrapes.Idle.{IsIdle_iff, busy_miss}
use healthkit.Scrapes.Rate
use healthkit.Scrapes.Rate.{Scraper}

-- The entry of the cell was written at `now` or before.
abbrev WrittenBy : Time → Option (Time × Text) → Type 0
WrittenBy now none = Unit
WrittenBy now (some (at, body)) = at ≤ now

module _ (rt : Runtime) (features : Features) (f : Float) (state : MetricsState) where
  abbrev deadline : Duration
  deadline = state.registry.default_timeout

  -- A rendering of the sweep of these vectors that began then and ended at `u`, at most the deadline
  -- and the lag later.
  abbrev pub Sourced : Store → Time → Time → Text → Type 0
  Sourced s began u body =
      (results : List CheckResult) × (emitted : List Emission) × (check_all rt features s
          state.registry began
        ≡ done u (results, emitted))
      × (body ≡ render_prometheus f results)
      × (began ≤ u)
      × (u ≤ began + state.registry.default_timeout + rt.lag)

  soon_of : (limit t : Time) → 0 < deadline → EndsBy limit deadline t → t ≤ limit
  soon_of limit t pos (inl z) = absurd (omega arith)
  soon_of limit t pos (inr le) = le

  check_all_by :
      (s : Store) (now u : Time) (results : List CheckResult) (emitted : List Emission)
      → 0 < deadline
      → check_all rt features s state.registry now ≡ done u (results, emitted)
      → (now ≤ u) × (u ≤ now + deadline + rt.lag)
  check_all_by s now u results emitted pos e =
      let answers =
        (check_all-Ends rt features s state.registry now).0.0 (u, results, emitted, e) in
      let (t, rs, ran, reports, soon) =
        check_all-Reports rt features s state.registry now answers in
      let same : t ≡ u = cc in
      (
        check_all-after rt features s state.registry now u (results, emitted) answers e,
        rw same at (soon_of _ t pos soon),
      )

  refresh-Sourced :
      (s : Store) (cell cell' : Cell) (now t : Time) (body : Text) (emitted : List Emission)
      (o : Outcome (List CheckResult × List Emission))
      → 0 < deadline
      → check_all rt features s state.registry now ≡ o
      → refresh rt features f state s cell now ≡ done t (body, cell', emitted)
      → Sourced s now t body
  unfolding refresh
  refresh-Sourced s cell cell' now t body emitted (done u (rs, em)) pos e h =
      let same : u ≡ t = ground arith in
      let text : render_prometheus f rs ≡ body = ground arith in
      let (after, soon) = check_all_by s now u rs em pos e in
      (rs, em, rw same at e, sym text, rw same at after, rw same at soon)
  refresh-Sourced s cell cell' now t body emitted o pos e h = absurd (ground arith)

  -- The cell holds nothing, or the rendering of the latest sweep.
  abbrev Fed : List (Store × Time) → Option (Time × Text) → Type 0
  Fed sweeps none = Unit
  Fed [] (some (at, body)) = ⊥
  Fed ((s, began) ∷ sweeps) (some (at, body)) = Sourced s began at body

  -- The answer is the rendering of the latest sweep that was begun, which is over, and which began
  -- not longer before the answer than the time to live, the deadline and the lag together.
  abbrev pub Aged : Duration → List (Store × Time) → Option (Time × Text) → Type 0
  Aged ttl sweeps none = Unit
  Aged ttl [] (some (t, body)) = ⊥
  Aged ttl ((s, began) ∷ sweeps) (some (t, body)) =
      (u : Time) × (results : List CheckResult) × (emitted : List Emission) × (check_all rt features
          s state.registry began
        ≡ done u (results, emitted))
      × (body ≡ render_prometheus f results)
      × (began ≤ u)
      × (u ≤ t)
      × (t ≤ began + state.registry.default_timeout + rt.lag + ttl)

  record IsSound (ttl : Duration) (v : Scraper) : Type 0 where
    clean : v.cell.poisoned ≡ false
    written : WrittenBy v.now v.cell.entry
    fed : Fed v.sweeps v.cell.entry
    aged : Aged ttl v.sweeps v.answer

  module _ (ttl : Duration) (e : state.ttl ≡ some ttl) (pos : 0 < deadline) where
    Aged-entry :
        (sweeps : List (Store × Time)) (o : Option (Time × Text)) (now : Time) (body : Text)
        → WrittenBy now o
        → Fed sweeps o
        → young ttl now o ≡ some body
        → Aged ttl sweeps (some (now, body))
    unfolding young
    Aged-entry sweeps none now body past h y = cc
    Aged-entry [] (some (at, b)) now body past h y = absurd h
    Aged-entry ((s, began) ∷ sweeps) (some (at, b)) now body past
          (results, emitted, ran, text, after, le) y =
        let same : b ≡ body = ground arith in
        let soon : now < at + ttl = ground arith in
        (at, results, emitted, ran, sym same ∙ text, after, past, omega arith)

    Aged-hit :
        (sweeps : List (Store × Time)) (cell : Cell) (now : Time) (body : Text)
        → WrittenBy now cell.entry
        → Fed sweeps cell.entry
        → lookup state cell now ≡ some body
        → Aged ttl sweeps (some (now, body))
    unfolding lookup
    Aged-hit sweeps cell now body past h hit =
        Aged-entry sweeps cell.entry now body past h (rw e at hit)

    WrittenBy-wait :
        (o : Option (Time × Text)) (now d : Time) → WrittenBy now o → WrittenBy (now + d) o
    WrittenBy-wait none now d h = tt
    WrittenBy-wait (some (at, body)) now d h = omega arith

    Step-IsSound :
        {v w : Scraper} → Rate.Step rt features f state v w → IsSound ttl v → IsSound ttl w
    Step-IsSound {v} (Rate.wait d) h = record {
      clean = h.clean;
      written = WrittenBy-wait v.cell.entry v.now d h.written;
      fed = h.fed;
      aged = h.aged;
    }
    Step-IsSound {v} (Rate.idle s t body cell emitted is_idle ran) h =
        let (cached, hit) = (IsIdle_iff rt features f state v.cell v.now).0 is_idle in
        let ends = render_hit rt features f state s v.cell v.now cached hit in
        let same : t ≡ v.now = cc in
        let same' : cell ≡ v.cell = cc in
        let text : body ≡ cached = cc in
        rw (same, same', text)
          (record {
            clean = h.clean;
            written = h.written;
            fed = h.fed;
            aged = Aged-hit v.sweeps v.cell v.now cached h.written h.fed hit;
          })
    Step-IsSound {v} (Rate.sweep s t body cell emitted runs ran) h =
        let miss = busy_miss rt features f state v.cell v.now runs in
        let fresh = rw (render_miss rt features f state s v.cell v.now miss) at ran in
        let source = refresh-Sourced s v.cell cell v.now t body emitted _ pos refl fresh in
        let (results, em, swept, text, after, le) = source in
        let kept =
          stored rt features f state s v.cell v.now t body cell emitted _ refl fresh
          ∙ remember_clean state ttl t body v.cell e h.clean in
        rw kept (record {
          clean = h.clean;
          written = omega arith;
          fed = source;
          aged = (t, results, em, swept, text, after, omega arith, omega arith);
        })

    Reach-IsSound :
        {now : Time} {v : Scraper} → Rate.Reach rt features f state now new_cell v → IsSound ttl v
    Reach-IsSound Rate.begin = record { clean = refl; written = tt; fed = tt; aged = tt }
    Reach-IsSound (Rate.next r st) = Step-IsSound st (Reach-IsSound r)

    -- With a cache and a deadline of the checks, one scraper that waits for each answer, however often
    -- it asks: each answer, when it comes, is the rendering of the results of the latest of the sweeps
    -- that its scrapes have begun, which is over and began before the answer by at most the time to
    -- live, the deadline and the lag of the timer together.
    pub Reach-Aged :
        {began : Time} (v : Scraper)
        → Rate.Reach rt features f state began new_cell v
        → Aged ttl v.sweeps v.answer
    Reach-Aged v r = (Reach-IsSound r).aged
