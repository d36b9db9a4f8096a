-- ===== src/Registry/Emissions.antt =====
-- src/registry.rs, `emit_facade_metrics`: what a recorder of the facade has counted after a sweep.
use healthkit.Base.{
  ℕ, ◌+◌, ◌≡◌, refl, Bool, true, false, Text, codes, List, [], ◌∷◌, map, flat_map, ◌&&◌,
  if◌then◌else◌, arith,
}
use healthkit.Async.{Time, Outcome, done, panicked, hangs}
use healthkit.Async.Runtime.{Runtime}
use healthkit.Duration.{Duration}
use healthkit.Types.{HealthStatus, healthy, degraded, unhealthy, CheckResult, status_text}
use healthkit.Registry.Register.{HealthRegistry, Store, checks_of}
use healthkit.Registry.Run.{run_one}
use healthkit.Registry.Sweep.{
  Features, Emission, counter, histogram, text_eq, emit_facade_metrics, check_all,
}

abbrev has_labels : List (Text × Text) → List (Text × Text) → Bool
has_labels [] [] = true
has_labels ((k, v) ∷ ls) ((k', v') ∷ ls') = text_eq k k' && text_eq v v' && has_labels ls ls'
has_labels _ _ = false

-- The value of the counter of this name and these labels.
abbrev pub total : Text → List (Text × Text) → List Emission → ℕ
total metric labels [] = 0
total metric labels (counter m ls n ∷ es) =
    let rest = total metric labels es in
    if text_eq m metric && has_labels ls labels then n + rest else rest
total metric labels (histogram m ls d ∷ es) = total metric labels es

-- What the histogram of this name and these labels has observed, in order.
abbrev pub observed : Text → List (Text × Text) → List Emission → List Duration
observed metric labels [] = []
observed metric labels (counter m ls n ∷ es) = observed metric labels es
observed metric labels (histogram m ls d ∷ es) =
    let rest = observed metric labels es in
    if text_eq m metric && has_labels ls labels then d ∷ rest else rest

abbrev pub same_status : HealthStatus → HealthStatus → Bool
same_status healthy healthy = true
same_status degraded degraded = true
same_status unhealthy unhealthy = true
same_status _ _ = false

-- How many results of this name have this status.
abbrev pub occurrences : Text → HealthStatus → List CheckResult → ℕ
occurrences name s [] = 0
occurrences name s (r ∷ rs) =
    let rest = occurrences name s rs in
    if text_eq r.name name && same_status r.status s then 1 + rest else rest

abbrev pub durations : Text → List CheckResult → List Duration
durations name [] = []
durations name (r ∷ rs) =
    let rest = durations name rs in if text_eq r.name name then r.duration ∷ rest else rest

status_text_eq : (a b : HealthStatus) → text_eq (status_text a) (status_text b) ≡ same_status a b
unfolding text_eq status_text
status_text_eq healthy healthy = refl
status_text_eq healthy degraded = refl
status_text_eq healthy unhealthy = refl
status_text_eq degraded healthy = refl
status_text_eq degraded degraded = refl
status_text_eq degraded unhealthy = refl
status_text_eq unhealthy healthy = refl
status_text_eq unhealthy degraded = refl
status_text_eq unhealthy unhealthy = refl

abbrev pub result_counter : Text
result_counter = codes "healthkit_check_result"

abbrev pub duration_histogram : Text
duration_histogram = codes "healthkit_check_duration_seconds"

and_true : (b : Bool) → (b && true) ≡ b
and_true true = refl
and_true false = refl

total-emitted :
    (name : Text) (s : HealthStatus) (rs : List CheckResult)
    → total result_counter
        ((codes "name", name) ∷ (codes "status", status_text s) ∷ [])
        (flat_map emit_facade_metrics rs)
      ≡ occurrences name s rs
unfolding emit_facade_metrics flat_map text_eq
total-emitted name s [] = refl
total-emitted name s (r ∷ rs) = rw (and_true, status_text_eq, total-emitted name s rs) refl

observed-emitted :
    (name : Text) (rs : List CheckResult)
    → observed duration_histogram ((codes "name", name) ∷ []) (flat_map emit_facade_metrics rs)
      ≡ durations name rs
unfolding emit_facade_metrics flat_map text_eq
observed-emitted name [] = refl
observed-emitted name (r ∷ rs) = rw (and_true, observed-emitted name rs) refl

module _ (rt : Runtime) (features : Features) (s : Store) (r : HealthRegistry) (now t : Time)
    (results : List CheckResult) (emitted : List Emission) where
  emitted_of :
      (o : Outcome (List CheckResult))
      → rt.join_all (map (run_one rt r.default_timeout) (checks_of s r)) now ≡ o
      → check_all rt features s r now ≡ done t (results, emitted)
      → emitted ≡ (if features.metrics then flat_map emit_facade_metrics results else [])
  unfolding check_all
  emitted_of (done u rs) e h = ground arith
  emitted_of (panicked u) e h = ground arith
  emitted_of hangs e h = ground arith

  -- If a sweep of all checks has returned and the `metrics` feature is on, the counter of each name
  -- and status has gone up by the number of results with that name and status, also where checks
  -- share a name, and the histogram of each name has observed the durations of the results of that
  -- name, in their order.
  pub check_all-total :
      (name : Text) (status : HealthStatus)
      → features.metrics ≡ true
      → check_all rt features s r now ≡ done t (results, emitted)
      → (total result_counter
            ((codes "name", name) ∷ (codes "status", status_text status) ∷ [])
            emitted
          ≡ occurrences name status results)
        × (observed duration_histogram ((codes "name", name) ∷ []) emitted ≡ durations name results)
  check_all-total name status on ran =
      let all : emitted ≡ flat_map emit_facade_metrics results = rw on at (emitted_of _ refl ran) in
      rw all (total-emitted name status results, observed-emitted name results)
