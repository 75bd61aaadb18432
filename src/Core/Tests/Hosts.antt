-- ===== src/Core/Tests/Hosts.antt =====
-- Settlement and health checks at concrete hosts. The state of the world is a number.
use benzene_python.Prelude.{
  ℕ, suc, String, Bool, true, false, ◌≡◌, refl, Option, none, some, [], ◌∷◌, inr, text_key,
}
use benzene_python.Effect.{returned, raised, ◌>>=◌, error, Coroutine}
use benzene_python.Dict.{Dict, get, put}
use benzene_python.Json.{Json, boolean, text}
use benzene_python.Core.Application.{Request}
use benzene_python.Core.Envelope.{Response}
use benzene_python.Core.Settlement.{
  Settlement, at_least_once, dispatch_one_way, settle_decoded, settle_response, settle_fault,
}
use benzene_python.Core.Settlement.Acknowledged.{Earned, dispatch_at_least_once}
use benzene_python.Core.Health.{
  Check, healthy, unhealthy, add, settle, proceed, run_checks, report_of, run, is_healthy,
  all_healthy, coerce,
}
use benzene_python.Core.Health.Reports.{Reported, run_reports}

abbrev str : Json → String
str (text s) = s
str _ = ""

abbrev quote : String → String
quote s = s

abbrev loads : String → Option Json
loads s = none

abbrev request : Request
request = record { topic = some "orders:place"; headers = none; body = some "{}" }

abbrev decodes : Coroutine ℕ Request
decodes n = (returned request, n)

abbrev malformed : Coroutine ℕ Request
malformed n = (raised (error "ValueError" "no topic"), n)

abbrev not_found : Response
not_found = record {
  status_code = some "not-found";
  is_successful = some (boolean false);
  headers = [];
  body = some "";
}

abbrev answers : Request → Bool → Coroutine ℕ Response
answers r ignore n = (returned not_found, suc n)

abbrev lossy : Settlement
lossy = record { at_most_once = true; ignore_unmatched_topics = false }

settlement_runs :
    (dispatch_one_way str quote loads at_least_once answers malformed 0
      ≡ (raised (error "ValueError" "no topic"), 0))
    × ((dispatch_one_way str quote loads lossy answers decodes 0).1 ≡ 1)
unfolding dispatch_one_way settle_decoded settle_response settle_fault
settlement_runs = (refl, refl)

dispatch_at_least_once_example :
    Earned str quote loads at_least_once
      ((decodes >>= λ request. answers request false) 0)
      (dispatch_one_way str quote loads at_least_once answers decodes 0)
dispatch_at_least_once_example =
    dispatch_at_least_once str quote loads at_least_once answers decodes 0 refl

abbrev checks : Dict String (Check ℕ)
checks =
    ("database", λ n. (returned (inr true), suc n))
    ∷ ("queue", λ n. (raised (error "OSError" "refused"), suc n))
    ∷ []

health_runs :
    (run checks 0 ≡ (
      returned (record {
        is_healthy = false;
        checks = ("database", healthy) ∷ ("queue", unhealthy (some "raised OSError: refused")) ∷ [];
      }),
      2,
    ))
    × (add "queue" (λ n. (returned (inr true), n)) checks ≡ none)
unfolding run run_checks report_of proceed settle coerce all_healthy is_healthy put get add
health_runs = (refl, refl)

run_reports_example : Reported "queue" checks (run checks 0)
run_reports_example = run_reports "queue" checks 0
