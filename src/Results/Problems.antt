-- ===== src/Results/Problems.antt =====
-- packages/benzene-results/benzene/results/problems.py
use Prim.Native.String.{◌++◌}
use benzene_python.Prelude.{ℕ, String, Option, none, some, [], ◌∷◌, text_key}
use benzene_python.Dict.{Dict, get}
use benzene_python.Results.Status

abbrev pub problem_base : String
problem_base = "https://benzene.app/problems/"

pub record Row : Type 0 where
  pub slug : String
  pub title : String
  pub http : ℕ

abbrev row : String → String → ℕ → Row
row s t n = record { slug = s; title = t; http = n }

abbrev pub registry : Dict String Row
registry =
    (Status.bad_request, row "bad-request" "Bad request" 400)
    ∷ (Status.unauthorized, row "unauthorized" "Unauthorized" 401)
    ∷ (Status.forbidden, row "forbidden" "Forbidden" 403)
    ∷ (Status.not_found, row "not-found" "Not found" 404)
    ∷ (Status.conflict, row "conflict" "Conflict" 409)
    ∷ (Status.validation_error, row "validation-error" "Validation failed" 422)
    ∷ (Status.too_many_requests, row "too-many-requests" "Too many requests" 429)
    ∷ (Status.unexpected_error, row "unexpected-error" "Unexpected error" 500)
    ∷ (Status.not_implemented, row "not-implemented" "Not implemented" 501)
    ∷ (Status.service_unavailable, row "service-unavailable" "Service unavailable" 503)
    ∷ (Status.timeout, row "timeout" "Timeout" 504)
    ∷ []

unfoldable pub problem_type : String → Option String
problem_type status = elim (get status registry) [
  | none ↦ none
  | some r ↦ some (problem_base ++ r.slug)
]

unfoldable pub problem_title : String → Option String
problem_title status = elim (get status registry) [ none ↦ none | some r ↦ some r.title ]

unfoldable pub problem_http_status : String → ℕ
problem_http_status status = elim (get status registry) [ none ↦ 500 | some r ↦ r.http ]
