-- ===== src/Core/Application.antt =====
-- The entry point of packages/benzene-core/benzene/core/envelope.py,
-- `BenzeneMessageApplication.handle`, without the resolution scope. `str.lower`, `json.loads` and
-- `json.dumps` are parameters, the last two with the exceptions that they raise.
pub mod Answers
use benzene_python.Prelude.{
  String, Bool, Option, none, some, List, [], ◌∷◌, contains, if◌then◌else◌, ◌==◌, text_key,
}
use benzene_python.Effect.{error, cancelled, Outcome, returned, raised, Coroutine}
use benzene_python.Dict.{Dict, get, put}
use benzene_python.Json.{Json, object, end}
use benzene_python.Results.Status
use benzene_python.Results.Result
use benzene_python.Results.Result.{Result}
use benzene_python.Core.Context.{World, Context, make_context, lower_from}
use benzene_python.Core.Envelope.{Response, text_or, encode_response}
use benzene_python.Core.Pipeline.{Middleware, handle}

-- `headers.get(name.lower()) or ""`
unfoldable pub resolve_version : (String → String) → Dict String String → String → String
resolve_version lower headers name = text_or (get (lower name) headers) ""

-- a request envelope
pub record Request : Type 0 where
  pub topic : Option String
  pub headers : Option (Dict String String)
  pub body : Option String

abbrev header_items : Option (Dict String String) → Dict String String
header_items none = []
header_items (some headers) = headers

-- `json.loads(body) if body else {}`
unfoldable pub parse_body : (String → Outcome Json) → String → Outcome Json
parse_body loads body = if body == "" then returned (object end) else loads body

-- `except (ValueError, TypeError)`, by the classes of what `json.loads` raises
abbrev pub is_caught : String → Bool
is_caught kind =
    contains kind ("ValueError" ∷ "JSONDecodeError" ∷ "UnicodeDecodeError" ∷ "TypeError" ∷ [])

-- the version is echoed where the request declared one
unfoldable pub echo : String → String → Response → Response
echo version_header version response =
    if version == ""
    then response
    else record response { headers = put version_header version response.headers }

abbrev pub echoed : String → String → Outcome Response → Outcome Response
echoed version_header version (returned response) = returned (echo version_header version response)
echoed version_header version (raised x) = raised x

-- the context of a parsed body
abbrev pub context_of : (String → String) → String → Request → Bool → Json → Context Json
context_of lower version_header request ignore_unmatched_topic parsed =
    let headers = lower_from lower [] (header_items request.headers) in
    record (make_context lower (text_or request.topic "") parsed headers
      (resolve_version lower headers version_header)) {
        ignore_unmatched_topic = ignore_unmatched_topic;
      }

module _ {W : Type 0} (lower : String → String) (loads : String → Outcome Json)
    (to_jsonable : Json → Outcome Json) (dumps : Json → Outcome String) where
  unfoldable pub respond :
      String → String → Outcome (Unit {0}) × World Json W → Outcome Response × W
  respond version_header version (raised x, (c, w)) = (raised x, w)
  respond version_header version (returned _, (c, w)) =
      (echoed version_header version (encode_response to_jsonable dumps c.result), w)

  unfoldable pub run_parsed :
      List (Middleware (World Json W))
      → String
      → String
      → Outcome Json
      → (Json → Context Json)
      → Coroutine W Response
  run_parsed pipeline version_header version (raised cancelled) make w = (raised cancelled, w)
  run_parsed pipeline version_header version (raised (error kind message)) make w =
      if is_caught kind
      then (
        encode_response to_jsonable dumps
            (some (Result.failed_with Status.bad_request "Request body is not valid JSON")),
        w,
      )
      else (raised (error kind message), w)
  run_parsed pipeline version_header version (returned parsed) make w =
      respond version_header version (handle pipeline (make parsed, w))

  -- `handle`, of an application by its pipeline (the router included) and its version header
  unfoldable pub handle_request :
      List (Middleware (World Json W)) → String → Request → Bool → Coroutine W Response
  handle_request pipeline version_header request ignore_unmatched_topic w =
      let headers = lower_from lower [] (header_items request.headers) in
      let version = resolve_version lower headers version_header in
      run_parsed pipeline version_header version (parse_body loads (text_or request.body ""))
        (context_of lower version_header request ignore_unmatched_topic) w
