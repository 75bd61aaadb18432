-- ===== src/Core/Tests/Senders.antt =====
-- The envelope and the decorators of a sender at concrete messages.
use benzene_python.Prelude.{
  ℕ, suc, zero, ◌+◌, String, Bool, true, false, ◌≡◌, ◌≢◌, ◌⊎◌, inr, refl, Option, none, some, [],
  ◌∷◌, arith, text_key, ◌==◌, if◌then◌else◌,
}
use benzene_python.Effect.{Outcome, returned, raised, error}
use benzene_python.Dict.{Dict, get}
use benzene_python.Json.{Json, boolean, text, object}
use benzene_python.Results.Status
use benzene_python.Results.Result
use benzene_python.Results.Result.{Result, is_successful}
use benzene_python.Core.Envelope.{error_payload, text_or}
use benzene_python.Core.Envelope.Trips.{Carries, travel, failure_travels, success_travels}
use benzene_python.Core.Outbound.{Sender, default_retryable, back_off, retrying, retry, is_final}
use benzene_python.Core.Outbound.Attempts.{Ended, retrying_sends}
use benzene_python.Core.Application.{Request, context_of, parse_body, handle_request}
use benzene_python.Core.Application.Answers.{Expected, Responded, handle_request_returns}
use benzene_python.Core.Pipeline.{handle, register}
use benzene_python.Core.Registry.{Registry, exact_version}
use benzene_python.Core.Router.{Handler, message_router}

-- Stands for `str`.
abbrev str : Json → String
str (text s) = s
str _ = ""

abbrev quote : String → String
quote s = s

abbrev declined : Result String
declined =
    Result.failed "out-of-stock"
      (record { message = "no sku"; field = some "sku"; code = none } ∷ [])

abbrev made : String → Outcome Json
made s = returned (text s)

abbrev dumps_declined : Json → Outcome String
dumps_declined v = returned "{...}"

abbrev loads_declined : String → Option Json
loads_declined s = some (object (error_payload declined))

has_text : ◌≢◌ {A = String} "{...}" ""
has_text = ground (arith, text_key.same_iff "{...}" "")

has_status : ◌≢◌ {A = String} "out-of-stock" ""
has_status = ground (arith, text_key.same_iff "out-of-stock" "")

has_message : ◌≢◌ {A = String} "no sku" ""
has_message = ground (arith, text_key.same_iff "no sku" "")

declined_fails : is_successful declined ≡ false
unfolding is_successful Status.is_successful
declined_fails = refl

failure_travels_example :
    (out : Result Json) × (travel str (λ s. refl) quote made dumps_declined loads_declined declined
      ≡ returned out)
    × (out.status ≡ "out-of-stock")
    × (out.errors ≡ declined.errors)
    × (out.payload ≡ none)
    × (is_successful out ≡ false)
failure_travels_example =
    failure_travels str (λ s. refl) quote made dumps_declined loads_declined declined "{...}"
      declined_fails has_status refl (has_message, tt) refl has_text refl

-- a success outside the vocabulary, whose payload is a Boolean
abbrev warmed : Result Bool
warmed = record {
  status = "cache-warm";
  payload = some true;
  errors = [];
  problem_document = none;
  successful = some true;
}

abbrev dumps_bool : Json → Outcome String
dumps_bool (boolean true) = returned "true"
dumps_bool _ = returned "false"

abbrev made_bool : Bool → Outcome Json
made_bool b = returned (boolean b)

abbrev loads_bool : String → Option Json
loads_bool s =
    if s == "true" then some (boolean true) else if s == "false" then some (boolean false) else none

warm_passes : is_successful warmed ≡ true
unfolding is_successful
warm_passes = refl

warm_status : ◌≢◌ {A = String} "cache-warm" ""
warm_status = ground (arith, text_key.same_iff "cache-warm" "")

bool-Carries :
    (b : Bool)
    → warmed.payload ≡ some b
    → Carries str (λ s. refl) quote made_bool dumps_bool loads_bool b
bool-Carries true same =
    (boolean true, "true", refl, refl, ground (arith, text_key.same_iff "true" ""), refl)
bool-Carries false same =
    (boolean false, "false", refl, refl, ground (arith, text_key.same_iff "false" ""), refl)

success_travels_example :
    (out : Result Json) × (travel str (λ s. refl) quote made_bool dumps_bool loads_bool warmed
      ≡ returned out)
    × (out.status ≡ "cache-warm")
    × (out.errors ≡ [])
    × (out.payload ≡ some (boolean true))
    × (is_successful out ≡ true)
success_travels_example =
    success_travels str (λ s. refl) quote made_bool dumps_bool loads_bool warmed warm_passes
      warm_status bool-Carries

-- A sender whose peer is down twice, by the number of sends so far.
abbrev flaky : Sender String ℕ String
flaky topic message headers zero = (returned (Result.failed_with Status.timeout "slow"), 1)
flaky topic message headers (suc zero) =
    (returned (Result.failed_with Status.service_unavailable "down"), 2)
flaky topic message headers (suc (suc n)) = (returned (Result.ok (some message)), suc (suc (suc n)))

retrying_runs :
    (retrying flaky 3 default_retryable none "orders" "book" none 0
      ≡ (returned (Result.ok (some "book")), 3))
    × (retrying flaky 2 default_retryable none "orders" "book" none 0
        ≡ (returned (Result.failed_with Status.service_unavailable "down"), 2))
unfolding retrying retry is_final back_off is_successful Status.is_successful
retrying_runs = (refl, refl)

abbrev sent : ℕ → ℕ
sent n = n

counts : (n : ℕ) → sent ((flaky "orders" "book" none n).1) ≡ sent n + 1
counts zero = omega arith
counts (suc zero) = omega arith
counts (suc (suc n)) = omega arith

quiet : (n v : ℕ) → sent ((back_off {W = ℕ} none n v).1) ≡ sent v
unfolding back_off
quiet n v = refl

retrying_sends_example :
    Ended default_retryable sent 0 1 3
      (retrying flaky 3 default_retryable none "orders" "book" none 0)
retrying_sends_example =
    retrying_sends flaky 3 default_retryable none sent "orders" "book" none 0 counts quiet

abbrev new_id : ℕ → String × ℕ
new_id n = ("id-7", suc n)

abbrev caller_headers : Dict String String
caller_headers = ("traceparent", "00-1") ∷ []

has_trace : get "traceparent" caller_headers ≡ some "00-1"
unfolding get
has_trace = refl

-- The application of a router over an empty registry.
abbrev no_types : Option String → String
no_types o = "the request type"

abbrev pass : Option String → Json → String ⊎ Json
pass o v = inr v

abbrev empty : Registry String (Handler Json ℕ)
empty = []

abbrev ping : Request
ping = record { topic = some "benzene:ping"; headers = none; body = none }

abbrev parses : String → Outcome Json
parses s =
    if s == "true"
    then returned (boolean true)
    else raised (error "JSONDecodeError" "Expecting value")

handle_request_returns_example :
    let router = message_router quote no_types pass empty exact_version in
    let parsed = parse_body parses (text_or ping.body "") in
    let w : ℕ = 0 in
    Responded returned dumps_bool parsed
      (Expected
        (λ v. handle (register [] router) (context_of quote "benzene-version" ping false v, w))
        parsed)
      (handle_request quote parses returned dumps_bool
        (register [] router)
        "benzene-version"
        ping
        false
        0).0
handle_request_returns_example =
    handle_request_returns quote parses returned dumps_bool quote no_types pass empty exact_version
      "benzene-version" ping false 0
