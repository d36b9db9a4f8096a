-- ===== src/Registry/Interleavings.antt =====
-- src/registry.rs: sweeps and registrations by many tasks at once. A sweep takes a snapshot when it
-- begins; while it runs, other tasks register checks, make registries, and begin and end sweeps.
use healthkit.Base.{◌+◌, ◌≡◌, sym, ◌∙◌, List, [], ◌∷◌, ◌++◌, All, append_assoc, append-nil}
use healthkit.Async.{Time, done}
use healthkit.Async.Runtime.{Runtime}
use healthkit.Duration.{Duration}
use healthkit.Types.{CheckResult}
use healthkit.Registry.Register.{RegisteredCheck, HealthRegistry, Store, checks_of, IsAllocated}
use healthkit.Registry.Sweep.{Features, Emission, check_all}
use healthkit.Registry.Sweeps.{AllReport}
use healthkit.Registry.Ends.{check_all-AllReport}
use healthkit.Registry.Histories.{
  Event, apply, IsMade, registered_at, IsAllocated-apply, checks_of-apply,
}

-- A sweep that runs: its handle, when it began, and the vectors as it found them.
pub record Running : Type 0 where
  pub registry : HealthRegistry
  pub began : Time
  pub found : Store

-- A sweep that has ended: as it began, and its results.
pub record Finished : Type 0 where
  pub registry : HealthRegistry
  pub began : Time
  pub found : Store
  pub results : List CheckResult

pub record World : Type 0 where
  pub now : Time
  pub store : Store
  pub running : List Running
  pub finished : List Finished

module _ (rt : Runtime) (features : Features) where
  pub data Step (w : World) : World → Type 0 where
    wait : (d : Duration) → Step w (record w { now = w.now + d })
    event : (e : Event) → IsMade e w.store → Step w (record w { store = apply e w.store })
    begin :
        (r : HealthRegistry)
        → IsAllocated w.store r
        → Step w (record w {
          running = record { registry = r; began = w.now; found = w.store } ∷ w.running;
        })
    finish :
        (before : List Running) (x : Running) (after : List Running) (results : List CheckResult)
        (emitted : List Emission)
        → w.running ≡ before ++ x ∷ after
        → check_all rt features x.found x.registry x.began ≡ done w.now (results, emitted)
        → Step w (record w {
          running = before ++ after;
          finished =
              record { registry = x.registry; began = x.began; found = x.found; results = results }
              ∷ w.finished;
        })

  pub data Reach (s : Store) (now : Time) : World → Type 0 where
    here : Reach s now (record { now = now; store = s; running = []; finished = [] })
    next : {v w : World} → Reach s now v → Step v w → Reach s now w

  -- The checks that a handle finds are those of an older store, and newer ones behind them.
  abbrev pub Extends : HealthRegistry → Store → Store → Type 0
  Extends r old s =
      IsAllocated s r
      × ((newer : List RegisteredCheck) × (checks_of s r ≡ checks_of old r ++ newer))

  -- The results report all checks that the handle found when the sweep began, in their order, and
  -- nothing else; those checks stand first in the vector, and newer ones behind them.
  abbrev pub ReportsFound : Store → Finished → Type 0
  ReportsFound s x =
      AllReport rt.lag x.registry.default_timeout x.began (checks_of x.found x.registry) x.results
      × Extends x.registry x.found s

  record IsSound (w : World) : Type 0 where
    snapshots : All (λ x. Extends x.registry x.found w.store) w.running
    reported : All (ReportsFound w.store) w.finished

  grows :
      (e : Event) (s : Store) (r : HealthRegistry)
      → IsAllocated s r
      → IsMade e s
      → checks_of (apply e s) r ≡ checks_of s r ++ registered_at r.checks (e ∷ [])
  grows e s r h made = sym (append-nil (checks_of (apply e s) r)) ∙ checks_of-apply e s r [] h made

  Extends-apply :
      (e : Event) (s old : Store) (r : HealthRegistry)
      → IsMade e s
      → Extends r old s
      → Extends r old (apply e s)
  Extends-apply e s old r made (alloc, (newer, eq)) = (
    IsAllocated-apply e s r alloc,
    (
      newer ++ registered_at r.checks (e ∷ []),
      grows e s r alloc made ∙ rw eq (append_assoc (checks_of old r) newer _),
    ),
  )

  snapshots-apply :
      (e : Event) (s : Store) (xs : List Running)
      → IsMade e s
      → All (λ x. Extends x.registry x.found s) xs
      → All (λ x. Extends x.registry x.found (apply e s)) xs
  snapshots-apply e s [] made h = tt
  snapshots-apply e s (x ∷ xs) made (extends, h) =
      (Extends-apply e s x.found x.registry made extends, snapshots-apply e s xs made h)

  ReportsFound-apply :
      (e : Event) (s : Store) (xs : List Finished)
      → IsMade e s
      → All (ReportsFound s) xs
      → All (ReportsFound (apply e s)) xs
  ReportsFound-apply e s [] made h = tt
  ReportsFound-apply e s (x ∷ xs) made ((reports, extends), h) = (
    (reports, Extends-apply e s x.found x.registry made extends),
    ReportsFound-apply e s xs made h,
  )

  take_out :
      (P : Running → Type 0) (xs : List Running) (x : Running) (ys : List Running)
      → All P (xs ++ x ∷ ys)
      → P x × All P (xs ++ ys)
  take_out P [] x ys h = h
  take_out P (y ∷ xs) x ys h = let (p, q) = take_out P xs x ys h.1 in (p, (h.0, q))

  Step-IsSound : {v w : World} → Step v w → IsSound v → IsSound w
  Step-IsSound (wait d) h = record { snapshots = h.snapshots; reported = h.reported }
  Step-IsSound {v} (event e made) h = record {
    snapshots = snapshots-apply e v.store v.running made h.snapshots;
    reported = ReportsFound-apply e v.store v.finished made h.reported;
  }
  Step-IsSound {v} (begin r alloc) h = record {
    snapshots = ((alloc, ([], sym (append-nil (checks_of v.store r)))), h.snapshots);
    reported = h.reported;
  }
  Step-IsSound {v} (finish before x after results emitted e ran) h =
      let (extends, rest) =
        take_out (λ x. Extends x.registry x.found v.store) before x after (rw e at h.snapshots) in
      let (reports, soon) =
        check_all-AllReport rt features x.found x.registry x.began v.now results emitted ran in
      record { snapshots = rest; reported = ((reports, extends), h.reported) }

  Reach-IsSound : {s : Store} {now : Time} {w : World} → Reach s now w → IsSound w
  Reach-IsSound here = record { snapshots = tt; reported = tt }
  Reach-IsSound (next r st) = Step-IsSound st (Reach-IsSound r)

  -- However registrations and sweeps interleave, each sweep that has ended reports all checks that
  -- its handle found in the vectors as they were when it began, in their order: none of them is
  -- missing, and one that was registered while it ran is not among its results. Those checks are
  -- still the first of the vector, and the newer ones stand behind them.
  pub Reach-ReportsFound :
      {s : Store} {now : Time} {w : World} → Reach s now w → All (ReportsFound w.store) w.finished
  Reach-ReportsFound r = (Reach-IsSound r).reported
