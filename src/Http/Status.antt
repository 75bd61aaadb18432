-- ===== src/Http/Status.antt =====
-- packages/benzene-http/benzene/http/status.py
pub mod Classes
use benzene_python.Prelude.{
  ℕ, String, Bool, true, false, Option, none, some, [], ◌∷◌, text_key, number_key, if◌then◌else◌,
}
use benzene_python.Dict.{Dict, get}
use benzene_python.Results.Status

abbrev pub benzene_to_http : Dict String ℕ
benzene_to_http =
    (Status.ok, 200)
    ∷ (Status.ignored, 200)
    ∷ (Status.created, 201)
    ∷ (Status.accepted, 202)
    ∷ (Status.updated, 204)
    ∷ (Status.deleted, 204)
    ∷ (Status.bad_request, 400)
    ∷ (Status.unauthorized, 401)
    ∷ (Status.forbidden, 403)
    ∷ (Status.not_found, 404)
    ∷ (Status.conflict, 409)
    ∷ (Status.validation_error, 422)
    ∷ (Status.too_many_requests, 429)
    ∷ (Status.unexpected_error, 500)
    ∷ (Status.not_implemented, 501)
    ∷ (Status.service_unavailable, 503)
    ∷ (Status.timeout, 504)
    ∷ []

abbrev pub http_to_benzene : Dict ℕ String
http_to_benzene =
    (200, Status.ok)
    ∷ (201, Status.created)
    ∷ (202, Status.accepted)
    ∷ (204, Status.deleted)
    ∷ (400, Status.bad_request)
    ∷ (401, Status.unauthorized)
    ∷ (403, Status.forbidden)
    ∷ (404, Status.not_found)
    ∷ (408, Status.timeout)
    ∷ (409, Status.conflict)
    ∷ (422, Status.validation_error)
    ∷ (429, Status.too_many_requests)
    ∷ (501, Status.not_implemented)
    ∷ (502, Status.service_unavailable)
    ∷ (503, Status.service_unavailable)
    ∷ (504, Status.timeout)
    ∷ []

-- the truth of `is_successful: bool | None`
abbrev pub flag : Option Bool → Bool
flag none = false
flag (some b) = b

unfoldable pub to_http : String → Option Bool → ℕ
to_http status is_successful = elim (get status benzene_to_http) [
  | some known ↦ known
  | none ↦ if flag is_successful then 200 else 500
]

unfoldable pub from_http : ℕ → String
from_http http_code = elim (get http_code http_to_benzene) [
  | some status ↦ status
  | none ↦ Status.unexpected_error
]
