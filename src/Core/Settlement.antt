-- ===== src/Core/Settlement.antt =====
-- packages/benzene-core/benzene/core/settlement.py. The logging is left out. `decode` turns a
-- native message into an envelope and may raise; `application` is the entry point that runs it.
pub mod Acknowledged
use benzene_python.Prelude.{
  String, Bool, true, false, ◌||◌, Option, none, some, if◌then◌else◌, ◌==◌, text_key, ◌⊕◌,
}
use benzene_python.Effect.{Fault, error, cancelled, Outcome, returned, raised, Coroutine}
use benzene_python.Json.{Json}
use benzene_python.Results.Status
use benzene_python.Results.Result
use benzene_python.Results.Result.{Result}
use benzene_python.Core.Envelope.{Response, text_or, decode_response}
use benzene_python.Core.Application.{Request}

pub record Settlement : Type 0 where
  pub at_most_once : Bool
  pub ignore_unmatched_topics : Bool

abbrev pub at_least_once : Settlement
at_least_once = record { at_most_once = false; ignore_unmatched_topics = false }

unfoldable pub acknowledges {ℓ} : {A : Type ℓ} → Settlement → Result A → Bool
acknowledges settlement result = settlement.at_most_once || Result.is_successful result

-- `SettlementDefaults` and `redelivers`
pub record SettlementDefaults : Type 0 where
  pub binding : String
  pub shape : String
  pub on_failure : String
  pub unmatched_topic : String

unfoldable pub redelivers : String → String → SettlementDefaults
redelivers binding shape =
    if shape == "request-response"
    then record { binding = binding; shape = shape; on_failure = "n/a"; unmatched_topic = "n/a" }
    else record {
      binding = binding;
      shape = shape;
      on_failure = "redeliver";
      unmatched_topic = "redeliver";
    }

pub record OneWayOutcome : Type 0 where
  pub topic : String
  pub result : Result Json
  pub response : Option Response
  pub acknowledge : Bool
  pub fault : Option Fault

-- the property `detail`, for the `repr` of an exception
unfoldable pub detail : (Fault → String) → OneWayOutcome → String
detail repr o = elim o.response [
  | some response ↦ text_or response.body ""
  | none ↦ elim o.fault [ some x ↦ repr x | none ↦ "" ]
]

module _ {W : Type 0} (str : Json → String) (repr : String → String) (loads : String → Option Json)
    (settlement : Settlement) where
  -- what `except Exception` makes of a raise, for a message whose topic is known so far
  unfoldable pub settle_fault : String → Fault → W → Outcome OneWayOutcome × W
  settle_fault topic cancelled w = (raised cancelled, w)
  settle_fault topic (error kind text) w =
      if settlement.at_most_once
      then (
        returned (record {
          topic = topic;
          result = Result.failed_with Status.unexpected_error (kind ⊕ ": " ⊕ text);
          response = none;
          acknowledge = true;
          fault = some (error kind text);
        }),
        w,
      )
      else (raised (error kind text), w)

  unfoldable pub settle_response : String → Outcome Response × W → Outcome OneWayOutcome × W
  settle_response topic (raised x, w) = settle_fault topic x w
  settle_response topic (returned response, w) =
      let result = decode_response str repr loads response in
      (
        returned (record {
          topic = topic;
          result = result;
          response = some response;
          acknowledge = acknowledges settlement result;
          fault = none;
        }),
        w,
      )

  unfoldable pub settle_decoded :
      (Request → Bool → Coroutine W Response) → Outcome Request × W → Outcome OneWayOutcome × W
  settle_decoded application (raised x, w) = settle_fault "" x w
  settle_decoded application (returned request, w) =
      settle_response (text_or request.topic "")
        (application request settlement.ignore_unmatched_topics w)

  unfoldable pub dispatch_one_way :
      (Request → Bool → Coroutine W Response) → Coroutine W Request → Coroutine W OneWayOutcome
  dispatch_one_way application decode w = settle_decoded application (decode w)
