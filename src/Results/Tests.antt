-- ===== src/Results/Tests.antt =====
-- Runs of the results package on small inputs, and its theorems at inputs that meet their
-- hypotheses.
use benzene_python.Prelude.{
  String, true, false, ◌≡◌, ◌≢◌, refl, Option, none, some, [], ◌∷◌, arith, text_key,
}
use benzene_python.Dict.{get}
use benzene_python.Json.{Json, text, members}
use benzene_python.Results.Status
use benzene_python.Results.Errors.{BenzeneError, problem_errors, problem_status}
use benzene_python.Results.Result
use benzene_python.Results.Result.{Result, ProblemDetails, to_payload, contradicts}
use benzene_python.Results.Problems.{problem_type, problem_title}
use benzene_python.Results.Consistent.{IsConsistent, set-IsConsistent}
use benzene_python.Results.Documents.{problem_errors-to_payload}

-- a stand-in for `str` that keeps texts
abbrev str : Json → String
str (text s) = s
str _ = "?"

abbrev broken : BenzeneError
broken = record { message = "no sku"; field = some "/items/0/sku"; code = none }

abbrev document : ProblemDetails
document = record {
  benzene_status = "out-of-stock";
  type_uri = some "https://shop.example/out-of-stock";
  title = none;
  detail = some "nothing left";
  instance_uri = none;
  errors = broken ∷ [];
}

abbrev report : Option String
report = some "report"

abbrev warm : Result String
warm = record {
  status = "cache-warm";
  payload = report;
  errors = [];
  problem_document = none;
  successful = some true;
}

set_runs :
    (Result.set "cache-warm" report (some true) ≡ some warm)
    × (Result.set "ok" report (some false) ≡ none)
    × (Result.is_successful warm ≡ true)
unfolding Result.set contradicts Status.is_known Status.is_successful Result.is_successful
set_runs = (refl, refl, refl)

registry_runs :
    (problem_type "conflict" ≡ some "https://benzene.app/problems/conflict")
    × (problem_type "out-of-stock" ≡ none)
    × (problem_title "validation-error" ≡ some "Validation failed")
unfolding problem_type problem_title get
registry_runs = (refl, refl, refl)

set-IsConsistent_example :
    (warm.status ≡ "cache-warm")
    × (warm.payload ≡ report)
    × (warm.successful ≡ some true)
    × IsConsistent warm
set-IsConsistent_example = set-IsConsistent "cache-warm" report (some true) warm set_runs.0

abbrev out_of_stock : Result String
out_of_stock = record {
  status = "out-of-stock";
  payload = none;
  errors = broken ∷ [];
  problem_document = some document;
  successful = some false;
}

problem_runs : Result.problem {A = String} document ≡ some out_of_stock
unfolding Result.problem Status.is_successful
problem_runs = refl

out_of_stock_fails : Status.is_successful "out-of-stock" ≡ false
unfolding Status.is_successful
out_of_stock_fails = refl

has_message : ◌≢◌ {A = String} "no sku" ""
has_message = ground (arith, text_key.same_iff "no sku" "")

has_status : ◌≢◌ {A = String} "out-of-stock" ""
has_status = ground (arith, text_key.same_iff "out-of-stock" "")

problem_errors-to_payload_example :
    (problem_errors str (members (to_payload document)) ≡ broken ∷ [])
    × (problem_status (members (to_payload document)) ≡ some "out-of-stock")
problem_errors-to_payload_example =
    problem_errors-to_payload str (λ s. refl) document (has_message, tt) out_of_stock_fails
      has_status
