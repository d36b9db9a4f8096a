-- ===== src/Scrapes/Idle.antt =====
-- src/metrics.rs, `render`: when a scrape makes the checks run.
use healthkit.Base.{
  ℕ, zero, suc, ◌≡◌, ◌≢◌, refl, inl, inr, ◌↔◌, get_or, Text, List, [], ◌∷◌, none, some, arith,
}
use healthkit.Async.{Time, Outcome, done, panicked}
use healthkit.Async.Runtime.{Runtime}
use healthkit.Types.{CheckResult}
use healthkit.Registry.{RegisteredCheck, Store, Features, Emission, checks_of, check_all}
use healthkit.Registry.Reports.{InTime}
use healthkit.Registry.Sweeps.{check_all-panicked}
use healthkit.Registry.Latest.{check_all-latest}
use healthkit.Metrics.{Float}
use healthkit.Scrapes.Cache.{Cell, MetricsState, lookup, refresh, render}
use healthkit.Scrapes.Cached.{Option-cases, render_hit, render_miss}

-- A store with these checks behind one address.
only : ℕ → List RegisteredCheck → Store
only zero cs = cs ∷ []
only (suc n) cs = [] ∷ only n cs

get_or-only : (n : ℕ) (cs : List RegisteredCheck) → get_or (only n cs) n [] ≡ cs
unfolding only
get_or-only zero cs = refl
get_or-only (suc n) cs = get_or-only n cs

abbrev crash : RegisteredCheck
crash = record { name = []; group = none; check_fn = λ now. panicked now }

InTime-now : (d now : ℕ) → InTime d now now
InTime-now zero now = inl refl
InTime-now (suc d) now = inr (omega arith)

module _ (rt : Runtime) (features : Features) (f : Float) (state : MetricsState) (cell : Cell)
    (now : Time) where
  -- The scrape comes to the same, whatever checks are registered and whatever they do: it does not
  -- run them.
  abbrev pub IsIdle : Type 0
  IsIdle =
      (o : Outcome (Text × Cell × List Emission)) × ((s : Store)
        → render rt features f state s cell now ≡ o)

  refresh-crash :
      (t : Time)
      → (s : Store) → check_all rt features s state.registry now ≡ panicked t
      → refresh rt features f state s cell now ≡ panicked t
  unfolding refresh
  refresh-crash t s e = rw e

  refresh-done :
      (s : Store) (t u : Time) (x : List CheckResult × List Emission)
      → check_all rt features s state.registry now ≡ done t x
      → refresh rt features f state s cell now ≢ panicked u
  unfolding refresh
  refresh-done s t u x e h = let clash = rw e at h in cc

  busy : lookup state cell now ≡ none → ¬ IsIdle
  busy miss (o, same) =
      let s = only state.registry.checks (crash ∷ []) in
      let found : checks_of s state.registry ≡ crash ∷ [] =
        get_or-only state.registry.checks (crash ∷ []) in
      let (t, crashed) =
        check_all-panicked rt features s state.registry now
          (rw found (inl (now, refl, InTime-now state.registry.default_timeout now))) in
      let swept = check_all-latest rt now features [] state.registry [] tt in
      let a = rw (render_miss rt features f state s cell now miss) at (same s) in
      let b = rw (render_miss rt features f state [] cell now miss) at (same []) in
      let c = refresh-crash t s crashed in refresh-done [] _ t _ swept cc

  -- A scrape runs the checks exactly if it does not find its answer in the cell.
  pub IsIdle_iff : IsIdle ↔ ((body : Text) × (lookup state cell now ≡ some body))
  IsIdle_iff = (
    λ idle. elim (Option-cases (lookup state cell now)) [
      | inl miss ↦ absurd (busy miss idle)
      | inr hit ↦ hit
    ],
    λ (body, hit).
        (done now (body, cell, []), λ s. render_hit rt features f state s cell now body hit),
  )

  pub busy_miss : ¬ IsIdle → lookup state cell now ≡ none
  busy_miss runs = elim (Option-cases (lookup state cell now)) [
    | inl miss ↦ miss
    | inr hit ↦ absurd (runs (IsIdle_iff.1 hit))
  ]
