-- ===== src/Core/Envelope.antt =====
-- The response codec of packages/benzene-core/benzene/core/envelope.py. `json.dumps`, `json.loads`,
-- `mapping.to_jsonable`, `str` and `repr` are parameters. `to_jsonable` raises where the value that
-- it makes is one that `json.dumps` refuses; `loads` of a response body is `none` for a text that
-- is not JSON, and one nested too deeply for `json.loads` is left out. The members of an envelope
-- are of the types that the wire contract gives them, where `isSuccessful` may be anything.
pub mod Trips
use benzene_python.Prelude.{
  String, Bool, true, false, not, ◌&&◌, ◌||◌, Option, none, some, List, [], ◌∷◌, if◌then◌else◌,
  is_some, ◌==◌, text_key, join, ◌⊕◌,
}
use benzene_python.Effect.{Outcome, returned, raised}
use benzene_python.Dict.{Dict, get, has_key}
use benzene_python.Json.{
  Json, null, boolean, text, object, array, Members, end, member, members, not_none,
}
use benzene_python.Results.Status
use benzene_python.Results.Errors.{problem_errors, problem_status}
use benzene_python.Results.Problems.{problem_type, problem_title}
use benzene_python.Results.Result
use benzene_python.Results.Result.{
  ProblemDetails, Result, to_payload, errors_member, messages, is_successful,
}

pub record Response : Type 0 where
  pub status_code : Option String
  pub is_successful : Option Json
  pub headers : Dict String String
  pub body : Option String

abbrev optional_text : Option String → Json
optional_text none = null
optional_text (some s) = text s

-- the members `type` and `title`, of a status that the registry knows
unfoldable pub type_members : Option String → Option String → Members → Members
type_members none title rest = rest
type_members (some uri) title rest =
    member "type" (text uri) (member "title" (optional_text title) rest)

unfoldable pub error_payload {ℓ} : {P : Type ℓ} → Result P → Members
unfolding type_members
error_payload r = elim r.problem_document [
  | some d ↦ to_payload d
  | none ↦ type_members (problem_type r.status) (problem_title r.status) (
      member "detail" (text (join (messages r)))
        (member "benzeneStatus" (text r.status) (errors_member r.errors)))
]

abbrev content_type : Bool → String
content_type success = if success then "application/json" else "application/problem+json"

-- the envelope of a result, around the text of its body
unfoldable pub response_of {ℓ} : {P : Type ℓ} → Result P → String → Response
response_of r body = record {
  status_code = some r.status;
  is_successful = some (boolean (is_successful r));
  headers = ("content-type", content_type (is_successful r)) ∷ [];
  body = some body;
}

module _ {ℓ} {P : Type ℓ} (to_jsonable : P → Outcome Json) (dumps : Json → Outcome String) where
  abbrev pub write : Outcome Json → Outcome String
  write (returned v) = dumps v
  write (raised x) = raised x

  abbrev pub success_body : Option P → Outcome String
  success_body none = returned ""
  success_body (some p) = write (to_jsonable p)

  -- the text of the body, or the exception of writing it
  unfoldable pub body_of : Result P → Outcome String
  body_of r = if is_successful r then success_body r.payload else dumps (object (error_payload r))

  abbrev pub around : Result P → Outcome String → Outcome Response
  around r (returned body) = returned (response_of r body)
  around r (raised x) = raised x

  -- the envelope of a result
  unfoldable pub encode_result : Result P → Outcome Response
  encode_result r = around r (body_of r)

  unfoldable pub encode_response : Option (Result P) → Outcome Response
  encode_response none =
      encode_result (Result.failed_with Status.unexpected_error "The pipeline produced no result")
  encode_response (some r) = encode_result r

-- `envelope.get("isSuccessful") is True`
unfoldable pub successful_from : Response → Bool
successful_from response = elim response.is_successful [ some (boolean b) ↦ b | _ ↦ false ]

-- `None if successful == is_successful(status) else successful`
unfoldable pub stated : Bool → String → Option Bool
stated true status = if Status.is_successful status then none else some true
stated false status = if Status.is_successful status then some false else none

unfoldable pub looks_like_problem : Dict String Json → Bool
looks_like_problem parsed =
    has_key "benzeneStatus" parsed || has_key "errors" parsed || has_key "detail" parsed

-- `value or default`, of an optional text
abbrev pub text_or : Option String → String → String
text_or none default = default
text_or (some s) default = if s == "" then default else s

abbrev pub rebuilt : String → Option Json → Option Bool → Result Json
rebuilt status payload successful = record {
  status = status;
  payload = payload;
  errors = [];
  problem_document = none;
  successful = successful;
}

module _ (str : Json → String) (repr : String → String) (loads : String → Option Json) where
  -- the result of a failed response's problem document
  unfoldable pub decode_problem : Response → Dict String Json → Result Json
  decode_problem response parsed =
      let status = text_or response.status_code Status.unexpected_error in
      let kept =
        if text_or response.status_code "" == ""
        then text_or (problem_status parsed) status
        else status in
      record (rebuilt kept none (stated (successful_from response) kept)) {
        errors = problem_errors str parsed;
      }

  unfoldable pub decode_parsed : Response → Json → Result Json
  decode_parsed response (object ms) =
      let status = text_or response.status_code Status.unexpected_error in
      if not (successful_from response) && looks_like_problem (members ms)
      then decode_problem response (members ms)
      else rebuilt status (some (object ms)) (stated (successful_from response) status)
  decode_parsed response parsed =
      let status = text_or response.status_code Status.unexpected_error in
      rebuilt status (not_none (some parsed)) (stated (successful_from response) status)

  unfoldable pub decode_body : Response → String → Option Json → Result Json
  decode_body response body none =
      let status = text_or response.status_code Status.unexpected_error in
      if not (successful_from response)
      then rebuilt status none (stated (successful_from response) status)
      else Result.failed_with Status.unexpected_error
          ("response body is not valid JSON: " ⊕ repr body)
  decode_body response body (some parsed) = decode_parsed response parsed

  unfoldable pub decode_response : Response → Result Json
  decode_response response =
      let status = text_or response.status_code Status.unexpected_error in
      let body = text_or response.body "" in
      if body == ""
      then rebuilt status none (stated (successful_from response) status)
      else decode_body response body (loads body)
