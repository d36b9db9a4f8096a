-- ===== src/Routes/Startup.antt =====
-- src/axum.rs, `startup_handler`: a startup probe over a group or over all checks.
use healthkit.Base.{
  ◌+◌, ◌≡◌, refl, ◌⊎◌, ◌≢◌, ◌↔◌, Text, Option, some, List, [], ◌∷◌, All, arith, Result,
}
use healthkit.Async.{Async, Time, done}
use healthkit.Async.Runtime.{Runtime}
use healthkit.Types.{HealthStatus, healthy, CheckResult}
use healthkit.Errors.{HealthCheckError}
use healthkit.Registry.{
  HealthRegistry, Store, Features, IsAllocated, checks_of, aggregate, add_check_inner, members,
}
use healthkit.Registry.Reports.{EndsBy}
use healthkit.Registry.Passing.{Passes, AllReport-Passes}
use healthkit.Registry.Worst.{aggregate_exact}
use healthkit.Registry.Sweeps.{AllAnswer, AllReport, check_group-members}
use healthkit.Registry.Grouped.{GroupAnswers, GroupReports, AllAnswer-members, AllReport-members}
use healthkit.Registry.Groups.{check_group-add_other}
use healthkit.Routes.Handlers.{
  StatusCode, service_unavailable, Response, json_health, aggregate_status, startup_response,
  startup_handler,
}

-- The two copies of the aggregation, here and in the registry, agree.
pub aggregate_status-eq-aggregate : (rs : List CheckResult) → aggregate_status rs ≡ aggregate rs
unfolding aggregate_status aggregate
aggregate_status-eq-aggregate [] = refl
aggregate_status-eq-aggregate (r ∷ rs) = refl

-- What a startup response shows of the status.
startup_response_lem :
    (s : HealthStatus)
    → ((startup_response s).body ≡ json_health (record { status = s }))
      × (((startup_response s).status ≡ StatusCode.ok) ↔ (s ≡ healthy))
      × (((startup_response s).status ≡ StatusCode.ok)
          ⊎ ((startup_response s).status ≡ service_unavailable))
unfolding startup_response
startup_response_lem s = ground arith

module _ (rt : Runtime) (features : Features) (r : HealthRegistry) (group : Text) (s : Store) where
  startup_handler-members :
      (now : Time)
      → AllAnswer r.default_timeout now (members group (checks_of s r))
      → (t : Time) × (results : List CheckResult) × (response : Response) × (startup_handler rt
            features
            (record { registry = r; group = some group })
            s
            now
          ≡ done t (response, []))
        × AllReport rt.lag r.default_timeout now (members group (checks_of s r)) results
        × (response.body ≡ json_health (record { status = aggregate results }))
        × ((response.status ≡ StatusCode.ok) ↔ All (λ r. r.status ≡ healthy) results)
        × ((response.status ≡ StatusCode.ok) ⊎ (response.status ≡ service_unavailable))
        × EndsBy (now + r.default_timeout + rt.lag) r.default_timeout t
  unfolding startup_handler
  startup_handler-members now h =
      let (t, results, e, reports, soon) = check_group-members rt s r group now h in
      let (body, code, either) = startup_response_lem (aggregate results) in
      let (all, back) = (aggregate_exact results).0 in
      (
        t,
        results,
        startup_response (aggregate results),
        rw (e, aggregate_status-eq-aggregate),
        reports,
        body,
        (λ x. all (code.0 x), λ x. code.1 (back x)),
        either,
        soon,
      )

  -- If each check that was added to the group answers, whatever the other checks do, `/startupz` for
  -- the group responds, with nothing emitted, and under a deadline at the deadline and the lag of the
  -- timer. Its status is the aggregate of one result for each check that was added to the group and
  -- none for any other. The code is 200 exactly if every one of them is `healthy`, also where there is
  -- none, and else 503.
  pub startup_handler-group :
      (now : Time)
      → GroupAnswers rt s r group now
      → (t : Time) × (results : List CheckResult) × (response : Response) × (startup_handler rt
            features
            (record { registry = r; group = some group })
            s
            now
          ≡ done t (response, []))
        × GroupReports group rt.lag r.default_timeout now (checks_of s r) results
        × (response.body ≡ json_health (record { status = aggregate results }))
        × ((response.status ≡ StatusCode.ok) ↔ All (λ r. r.status ≡ healthy) results)
        × ((response.status ≡ StatusCode.ok) ⊎ (response.status ≡ service_unavailable))
        × EndsBy (now + r.default_timeout + rt.lag) r.default_timeout t
  startup_handler-group now h =
      let (t, results, response, ran, reports, body, code, either, soon) =
        startup_handler-members now (AllAnswer-members rt s r group now h) in
      (
        t,
        results,
        response,
        ran,
        AllReport-members group rt.lag r.default_timeout now (checks_of s r) results reports,
        body,
        code,
        either,
        soon,
      )

  -- If each check of the group answers, `/startupz` for the group responds with 200 exactly if every
  -- check of the group returned `healthy` before its deadline, and else with 503.
  pub startup_handler-Passes :
      (now : Time)
      → AllAnswer r.default_timeout now (members group (checks_of s r))
      → (t : Time) × (response : Response) × (startup_handler rt features
            (record { registry = r; group = some group })
            s
            now
          ≡ done t (response, []))
        × ((response.status ≡ StatusCode.ok)
            ↔ All (Passes (λ x. x ≡ healthy) r.default_timeout now) (members group (checks_of s r)))
        × ((response.status ≡ StatusCode.ok) ⊎ (response.status ≡ service_unavailable))
        × EndsBy (now + r.default_timeout + rt.lag) r.default_timeout t
  startup_handler-Passes now h =
      let (t, results, response, ran, reports, body, code, either, soon) =
        startup_handler-members now h in
      let (to, from) =
        AllReport-Passes (λ x. x ≡ healthy) r.default_timeout now (λ e. cc) rt.lag
          (members group (checks_of s r)) results reports in
      (t, response, ran, (λ e. to (code.0 e), λ p. code.1 (from p)), either, soon)

  -- Registering a check without a group, or in another group, does not change how `/startupz` for
  -- the group responds: a dependency that is down cannot fail the startup probe.
  pub startup_handler-add_other :
      (q : HealthRegistry) (other : Option Text) (name : Text)
      (check : Async (Result HealthStatus HealthCheckError))
      → IsAllocated s q
      → other ≢ some group
      → startup_handler rt features
          (record { registry = r; group = some group })
          (add_check_inner q other name check s)
        ≡ startup_handler rt features (record { registry = r; group = some group }) s
  unfolding startup_handler
  startup_handler-add_other q other name check h ne =
      rw (check_group-add_other rt s q group other name check r h ne)
