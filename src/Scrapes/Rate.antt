-- ===== src/Scrapes/Rate.antt =====
-- src/metrics.rs, `render` by one scraper, scrape after scrape: how often the checks are swept.
use healthkit.Base.{
  suc, ◌+◌, ◌*◌, ◌≤◌, ◌≡◌, refl, ◌∙◌, ◌⊎◌, inl, inr, false, Text, List, [], ◌∷◌, length, Option,
  none, some, arith,
}
use healthkit.Async.{Time, Outcome, done}
use healthkit.Async.Runtime.{Runtime}
use healthkit.Duration.{Duration}
use healthkit.Types.{CheckResult}
use healthkit.Registry.{Store, Features, Emission, check_all}
use healthkit.Registry.Sweeps.{check_all-after}
use healthkit.Registry.Ends.{check_all-Ends}
use healthkit.Metrics.{Float}
use healthkit.Scrapes.Cache.{Cell, MetricsState, young, lookup, refresh, render}
use healthkit.Scrapes.Idle.{IsIdle, IsIdle_iff, busy_miss}
use healthkit.Scrapes.Cached.{Option-cases, remember_clean, stored, render_hit, render_miss}

-- The instant, the cell, the sweeps that were begun, each with the vectors that it found and its
-- instant, the latest first, and the last answer with its instant.
pub record Scraper : Type 0 where
  pub now : Time
  pub cell : Cell
  pub sweeps : List (Store × Time)
  pub answer : Option (Time × Text)

module _ (rt : Runtime) (features : Features) (f : Float) (state : MetricsState) where
  pub data Step (v : Scraper) : Scraper → Type 0 where
    wait : (d : Duration) → Step v (record v { now = v.now + d })
    -- A scrape for which it does not matter what the checks do.
    idle :
        (s : Store) (t : Time) (body : Text) (cell : Cell) (emitted : List Emission)
        → IsIdle rt features f state v.cell v.now
        → render rt features f state s v.cell v.now ≡ done t (body, cell, emitted)
        → Step v (record { now = t; cell = cell; sweeps = v.sweeps; answer = some (t, body) })
    -- Any other scrape.
    sweep :
        (s : Store) (t : Time) (body : Text) (cell : Cell) (emitted : List Emission)
        → ¬ IsIdle rt features f state v.cell v.now
        → render rt features f state s v.cell v.now ≡ done t (body, cell, emitted)
        → Step v (record {
          now = t;
          cell = cell;
          sweeps = (s, v.now) ∷ v.sweeps;
          answer = some (t, body);
        })

  -- What the scraper comes to from `now` on, with this cell.
  pub data Reach (now : Time) (cell : Cell) : Scraper → Type 0 where
    begin : Reach now cell (record { now = now; cell = cell; sweeps = []; answer = none })
    next : {v w : Scraper} → Reach now cell v → Step v w → Reach now cell w

  -- The last sweep was written late enough for all of them.
  abbrev Paced : Duration → Time → Scraper → Type 0
  Paced ttl began v =
      (length v.sweeps ≡ 0)
      ⊎ ((at : Time) × (body : Text) × (v.cell.entry ≡ some (at, body))
          × (at ≤ v.now)
          × (began + length v.sweeps * ttl ≤ at + ttl))

  record IsSound (ttl : Duration) (began : Time) (v : Scraper) : Type 0 where
    clean : v.cell.poisoned ≡ false
    later : began ≤ v.now
    paced : Paced ttl began v

  refresh-after :
      (s : Store) (cell cell' : Cell) (now t : Time) (body : Text) (emitted : List Emission)
      (o : Outcome (List CheckResult × List Emission))
      → check_all rt features s state.registry now ≡ o
      → refresh rt features f state s cell now ≡ done t (body, cell', emitted)
      → now ≤ t
  unfolding refresh
  refresh-after s cell cell' now t body emitted (done u (rs, em)) e h =
      let same : u ≡ t = ground arith in
      let answers = (check_all-Ends rt features s state.registry now).0.0 (u, rs, em, e) in
      rw (← same) (check_all-after rt features s state.registry now u (rs, em) answers e)
  refresh-after s cell cell' now t body emitted o e h = ground arith

  -- An entry that is not served has reached its time to live.
  old_entry :
      (ttl : Duration) (now at : Time) (body : Text) (cell : Cell)
      → state.ttl ≡ some ttl
      → cell.entry ≡ some (at, body)
      → lookup state cell now ≡ none
      → at ≤ now
      → at + ttl ≤ now
  unfolding lookup young
  old_entry ttl now at body cell e stored miss le = ground arith

  pub render-after :
      (s : Store) (cell cell' : Cell) (now t : Time) (body : Text) (emitted : List Emission)
      → render rt features f state s cell now ≡ done t (body, cell', emitted)
      → now ≤ t
  render-after s cell cell' now t body emitted ran = elim (Option-cases (lookup state cell now)) [
    | inl miss ↦
        refresh-after s cell cell' now t body emitted (check_all rt features s state.registry now)
          refl (rw (render_miss rt features f state s cell now miss) at ran)
    | inr (cached, hit) ↦
        let ends = render_hit rt features f state s cell now cached hit in
        let same : now ≡ t = cc in omega arith
  ]

  Paced-miss :
      (ttl : Duration) (began t : Time) (body : Text) (v : Scraper)
      → state.ttl ≡ some ttl
      → lookup state v.cell v.now ≡ none
      → v.now ≤ t
      → began ≤ v.now
      → Paced ttl began v
      → began + suc (length v.sweeps) * ttl ≤ t + ttl
  Paced-miss ttl began t body v e miss le later (inl z) = rw z (omega arith)
  Paced-miss ttl began t body v e miss le later (inr (at, b, entry, before, h)) =
      let old : at + ttl ≤ v.now = old_entry ttl v.now at b v.cell e entry miss before in
      omega arith

  module _ (ttl : Duration) (began : Time) (e : state.ttl ≡ some ttl) where
    IsSound-miss :
        (v : Scraper) (s : Store) (t : Time) (body : Text) (cell : Cell) (emitted : List Emission)
        → lookup state v.cell v.now ≡ none
        → render rt features f state s v.cell v.now ≡ done t (body, cell, emitted)
        → IsSound ttl began v
        → IsSound ttl began (record {
          now = t;
          cell = cell;
          sweeps = (s, v.now) ∷ v.sweeps;
          answer = some (t, body);
        })
    IsSound-miss v s t body cell emitted miss ran h =
        let fresh = rw (render_miss rt features f state s v.cell v.now miss) at ran in
        let kept =
          stored rt features f state s v.cell v.now t body cell emitted _ refl fresh
          ∙ remember_clean state ttl t body v.cell e h.clean in
        let le : v.now ≤ t = render-after s v.cell cell v.now t body emitted ran in
        let step = Paced-miss ttl began t body v e miss le h.later h.paced in
        rw kept (record {
          clean = h.clean;
          later = omega (arith, h.later);
          paced = inr (t, body, refl, omega arith, omega arith);
        })

    IsSound-hit :
        (v : Scraper) (s : Store) (t : Time) (body cached : Text) (cell : Cell)
        (emitted : List Emission)
        → lookup state v.cell v.now ≡ some cached
        → render rt features f state s v.cell v.now ≡ done t (body, cell, emitted)
        → IsSound ttl began v
        → IsSound ttl began
            (record { now = t; cell = cell; sweeps = v.sweeps; answer = some (t, body) })
    IsSound-hit v s t body cached cell emitted hit ran h =
        let ends = render_hit rt features f state s v.cell v.now cached hit in
        let same : t ≡ v.now = cc in
        let same' : cell ≡ v.cell = cc in
        rw (same, same') (record { clean = h.clean; later = h.later; paced = h.paced })

    Step-IsSound : {v w : Scraper} → Step v w → IsSound ttl began v → IsSound ttl began w
    Step-IsSound {v} (wait d) h = record {
      clean = h.clean;
      later = omega (arith, h.later);
      paced = elim h.paced [
        | inl z ↦ inl z
        | inr (at, b, entry, le, k) ↦ inr (at, b, entry, omega arith, k)
      ];
    }
    Step-IsSound {v} (idle s t body cell emitted is_idle ran) h =
        let (cached, hit) = (IsIdle_iff rt features f state v.cell v.now).0 is_idle in
        IsSound-hit v s t body cached cell emitted hit ran h
    Step-IsSound {v} (sweep s t body cell emitted runs ran) h =
        IsSound-miss v s t body cell emitted (busy_miss rt features f state v.cell v.now runs) ran h

    Reach-IsSound :
        {cell : Cell} {v : Scraper}
        → cell.poisoned ≡ false
        → Reach began cell v
        → IsSound ttl began v
    Reach-IsSound clean begin = record { clean = clean; later = omega arith; paced = inl refl }
    Reach-IsSound clean (next r st) = Step-IsSound st (Reach-IsSound clean r)

  sweeps_by :
      (ttl : Duration) (began : Time) (v : Scraper)
      → began ≤ v.now
      → Paced ttl began v
      → began + length v.sweeps * ttl ≤ v.now + ttl
  sweeps_by ttl began v later (inl z) = rw z (omega arith)
  sweeps_by ttl began v later (inr (at, b, entry, le, k)) = omega arith

  -- One scraper that waits for each answer, however often it asks, makes the checks run at most
  -- once in each time to live: `n` scrapes whose outcome depends on what is registered, or on what
  -- the checks do, take at least `n - 1` of them. The lock is not poisoned.
  pub Reach-sweeps :
      (ttl : Duration) (began : Time) (cell : Cell) (v : Scraper)
      → state.ttl ≡ some ttl
      → cell.poisoned ≡ false
      → Reach began cell v
      → began + length v.sweeps * ttl ≤ v.now + ttl
  Reach-sweeps ttl began cell v e clean r =
      let sound = Reach-IsSound ttl began e clean r in sweeps_by ttl began v sound.later sound.paced
