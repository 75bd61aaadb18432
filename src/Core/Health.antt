-- ===== src/Core/Health.antt =====
-- packages/benzene-core/benzene/core/health.py. A check is a coroutine to a result or a Boolean.
-- The fields `type` and `data` of a result are named `kind` and `bag`.
pub mod Reports
use benzene_python.Prelude.{
  String, Bool, true, false, not, ◌&&◌, ◌⊎◌, inl, inr, Option, none, some, List, [], ◌∷◌, map,
  select, if◌then◌else◌, contains, ◌==◌, text_key, ◌⊕◌,
}
use benzene_python.Effect.{Fault, error, cancelled, Outcome, returned, raised, Coroutine}
use benzene_python.Dict.{Dict, put, has_key}
use benzene_python.Json.{Json, text, boolean, object, Members, end, member}
use benzene_python.Results.Errors.{text_member}
use benzene_python.Results.Result
use benzene_python.Core.Context.{World, Context}
use benzene_python.Core.Pipeline.{Middleware, Next}
use benzene_python.Core.Router.{answer}

pub record HealthCheckResult : Type 0 where
  pub status : String
  pub detail : Option String
  pub kind : Option String
  pub bag : Option Members

unfoldable pub is_healthy : HealthCheckResult → Bool
is_healthy r = not (r.status == "failed")

abbrev pub healthy : HealthCheckResult
healthy = record { status = "ok"; detail = none; kind = none; bag = none }

abbrev pub unhealthy : Option String → HealthCheckResult
unhealthy detail = record { status = "failed"; detail = detail; kind = none; bag = none }

abbrev bag_member : Option Members → Members → Members
bag_member none rest = rest
bag_member (some bag) rest = member "data" (object bag) rest

-- `HealthCheckResult.to_payload`
unfoldable pub to_payload : HealthCheckResult → Members
to_payload r =
    member "status" (text r.status)
      (text_member "type" r.kind (bag_member r.bag (text_member "detail" r.detail end)))

-- `HealthReport`
pub record HealthReport : Type 0 where
  pub is_healthy : Bool
  pub checks : Dict String HealthCheckResult

abbrev check_members : Dict String HealthCheckResult → Members
check_members [] = end
check_members ((name, r) ∷ checks) = member name (object (to_payload r)) (check_members checks)

unfoldable pub report_payload : HealthReport → Members
unfolding to_payload
report_payload report =
    member "isHealthy" (boolean report.is_healthy)
      (member "healthChecks" (object (check_members report.checks)) end)

unfoldable pub unhealthy_checks : HealthReport → List String
unhealthy_checks report =
    map (λ (p : String × HealthCheckResult). p.0)
      (select (λ (p : String × HealthCheckResult). not (is_healthy p.1)) report.checks)

abbrev pub Check {ℓ} : Type ℓ → Type ℓ
Check W = W → Outcome (HealthCheckResult ⊎ Bool) × W

-- `all(result.is_healthy for result in results.values())`
unfoldable pub all_healthy : Dict String HealthCheckResult → Bool
all_healthy [] = true
all_healthy ((name, r) ∷ checks) = is_healthy r && all_healthy checks

-- `_coerce`
unfoldable pub coerce : HealthCheckResult ⊎ Bool → HealthCheckResult
coerce (inl r) = r
coerce (inr true) = healthy
coerce (inr false) = unhealthy none

-- one check's result, unless it is cancelled
unfoldable pub settle : Outcome (HealthCheckResult ⊎ Bool) → Option HealthCheckResult
settle (returned outcome) = some (coerce outcome)
settle (raised (error kind message)) = some (unhealthy (some ("raised " ⊕ kind ⊕ ": " ⊕ message)))
settle (raised cancelled) = none

module _ {W : Type 0} where
  -- `add`; `none` is a DuplicateHealthCheckError
  unfoldable pub add : String → Check W → Dict String (Check W) → Option (Dict String (Check W))
  add name check checks = if has_key name checks then none else some (put name check checks)

  -- the rest of the loop, unless the check was cancelled
  unfoldable pub proceed :
      Option HealthCheckResult
      → W
      → (HealthCheckResult → Outcome (Dict String HealthCheckResult) × W)
      → Outcome (Dict String HealthCheckResult) × W
  proceed none w rest = (raised cancelled, w)
  proceed (some r) w rest = rest r

  unfoldable pub run_checks :
      Dict String (Check W)
      → Dict String HealthCheckResult
      → Coroutine W (Dict String HealthCheckResult)
  run_checks [] results w = (returned results, w)
  run_checks ((name, check) ∷ checks) results w =
      proceed (settle ((check w).0)) ((check w).1)
        (λ r. run_checks checks (put name r results) ((check w).1))

  unfoldable pub report_of : Outcome (Dict String HealthCheckResult) × W → Outcome HealthReport × W
  report_of (raised x, w) = (raised x, w)
  report_of (returned results, w) =
      (returned (record { is_healthy = all_healthy results; checks = results }), w)

  -- `run`
  unfoldable pub run : Dict String (Check W) → Coroutine W HealthReport
  run checks w = report_of (run_checks checks [] w)

  unfoldable pub intercept :
      Outcome HealthReport × W → Context Json → Outcome (Unit {0}) × World Json W
  intercept (raised x, w) c = (raised x, (c, w))
  intercept (returned report, w) c =
      answer (Result.ok (some (object (report_payload report)))) (c, w)

  unfoldable pub health_interception :
      Dict String (Check W) → List String → Middleware (World Json W)
  health_interception checks aliases next (c, w) =
      if contains c.topic ("benzene:healthcheck" ∷ aliases)
      then intercept (run checks w) c
      else next (c, w)
