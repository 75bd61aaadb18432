-- ===== src/Core/Health/Reports.antt =====
-- What a run of the checks reports.
use benzene_python.Prelude.{
  is_empty, String, ◌||◌, ◌≡◌, refl, Option, none, some, [], ◌∷◌, arith, text_key, ◌==◌,
}
use benzene_python.Effect.{Outcome, returned, raised, cancelled}
use benzene_python.Dict.{Dict, get, put, has_key}
use benzene_python.Dict.Laws.{get-put}
use benzene_python.Core.Health.{
  proceed, HealthCheckResult, HealthReport, unhealthy_checks, Check, all_healthy, settle,
  run_checks, report_of, run,
}

-- The verdict is that no check is listed as unhealthy.
all_healthy-unhealthy_checks :
    (results : Dict String HealthCheckResult)
    → all_healthy results
      ≡ is_empty (unhealthy_checks (record { is_healthy = all_healthy results; checks = results }))
unfolding all_healthy unhealthy_checks
all_healthy-unhealthy_checks [] = refl
all_healthy-unhealthy_checks ((name, r) ∷ results) =
    ground (arith, all_healthy-unhealthy_checks results)

has_key-put :
    {V : Type 0} (k j : String) (v : V) (d : Dict String V)
    → has_key j (put k v d) ≡ ((k == j) || has_key j d)
has_key-put k j v d = ground (arith, get-put k j v d)

module _ {W : Type 0} where
  -- Cancelled, or results of exactly the names that are there and the names of the checks.
  abbrev Collected :
      String
      → Dict String HealthCheckResult
      → Dict String (Check W)
      → Outcome (Dict String HealthCheckResult) × W
      → Type 0
  Collected name before checks (raised x, w) = x ≡ cancelled
  Collected name before checks (returned results, w) =
      has_key name results ≡ (has_key name before || has_key name checks)

  collect_step :
      (name key : String) (check : Check W) (before : Dict String HealthCheckResult)
      (checks : Dict String (Check W)) (r : HealthCheckResult)
      (o : Outcome (Dict String HealthCheckResult) × W)
      → Collected name (put key r before) checks o
      → Collected name before ((key, check) ∷ checks) o
  unfolding get
  collect_step name key check before checks r (raised x, w) h = h
  collect_step name key check before checks r (returned results, w) h =
      ground (arith, has_key-put key name r before)

  Collected-proceed :
      (name : String) (checks : Dict String (Check W)) (before : Dict String HealthCheckResult)
      (o : Option HealthCheckResult) (w : W)
      (rest : HealthCheckResult → Outcome (Dict String HealthCheckResult) × W)
      → ((r : HealthCheckResult) → Collected name before checks (rest r))
      → Collected name before checks (proceed o w rest)
  unfolding proceed
  Collected-proceed name checks before none w rest h = refl
  Collected-proceed name checks before (some r) w rest h = h r

  Collected-run_checks :
      (name : String) (checks : Dict String (Check W)) (before : Dict String HealthCheckResult)
      (w : W)
      → Collected name before checks (run_checks checks before w)
  unfolding run_checks get
  Collected-run_checks name [] before w = ground arith
  Collected-run_checks name ((key, check) ∷ checks) before w =
      Collected-proceed name ((key, check) ∷ checks) before (settle ((check w).0)) ((check w).1) _
        (λ r.
          collect_step name key check before checks r
            (run_checks checks (put key r before) ((check w).1))
            (Collected-run_checks name checks (put key r before) ((check w).1)))

  -- Cancelled, or a report with the results of exactly the checks, healthy if none is unhealthy.
  abbrev pub Reported : String → Dict String (Check W) → Outcome HealthReport × W → Type 0
  Reported name checks (raised x, w) = x ≡ cancelled
  Reported name checks (returned report, w) =
      (has_key name report.checks ≡ has_key name checks)
      × (report.is_healthy ≡ is_empty (unhealthy_checks report))

  Reported-report_of :
      (name : String) (checks : Dict String (Check W))
      (o : Outcome (Dict String HealthCheckResult) × W)
      → Collected name [] checks o
      → Reported name checks (report_of o)
  unfolding report_of get
  Reported-report_of name checks (raised x, w) h = h
  Reported-report_of name checks (returned results, w) h = (h, all_healthy-unhealthy_checks results)

  -- Whatever the checks return or raise, a run ends with a report, unless it is cancelled: the
  -- report has a result for each check that is registered and for nothing else, and it is healthy
  -- if and only if its list of unhealthy checks is empty.
  pub run_reports :
      (name : String) (checks : Dict String (Check W)) (w : W) → Reported name checks (run checks w)
  unfolding run
  run_reports name checks w =
      Reported-report_of name checks (run_checks checks [] w)
        (Collected-run_checks name checks [] w)
