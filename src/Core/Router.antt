-- ===== src/Core/Router.antt =====
-- packages/benzene-core/benzene/core/router.py. The definitions' handlers are coroutines from a
-- request to a result; the mapping of a request onto a declared type (mapping.to_request) reads
-- dataclasses and is a parameter, which fails with a text; so are `repr` and the name of a type.
-- The warnings at start-up are left out.
pub mod Answers
use benzene_python.Prelude.{
  is_empty, ◌⊕◌, join, String, Bool, true, false, ◌&&◌, ◌⊎◌, inl, inr, Option, none, some, List, [],
  ◌∷◌, map, if◌then◌else◌, ◌==◌, text_key,
}
use benzene_python.Effect.{Fault, error, cancelled, Outcome, returned, raised, Coroutine}
use benzene_python.Results.Status
use benzene_python.Results.Result.{Result}
use benzene_python.Results.Result
use benzene_python.Core.Context.{World, Context}
use benzene_python.Core.Pipeline.{Middleware, Next}
use benzene_python.Core.Registry.{HandlerDefinition, Registry, versions_of}

abbrev pub ping_topic : String
ping_topic = "benzene:ping"

module _ {ℓ} {T H : Type ℓ} (repr : String → String) where
  -- the versions in a `not-found` text
  abbrev pub listed : List (HandlerDefinition T H) → String
  listed served = join (
      map (λ (d : HandlerDefinition T H). if d.version == "" then "unversioned" else repr d.version)
        served)

  no_handler_text : List (HandlerDefinition T H) → String → String → String
  no_handler_text [] topic version = "No handler found for topic " ⊕ repr topic
  no_handler_text (d ∷ ds) topic version =
      if version == ""
      then "No default handler for topic "
        ⊕ repr topic
        ⊕ ": the message carries no version and every handler is versioned ("
        ⊕ listed (d ∷ ds)
        ⊕ "), none declared default"
      else "No handler found for topic "
        ⊕ repr topic
        ⊕ " at version "
        ⊕ repr version
        ⊕ " (it serves "
        ⊕ listed (d ∷ ds)
        ⊕ ")"

  -- `_no_handler`
  unfoldable pub no_handler : Registry T H → String → String → String
  unfolding no_handler_text
  no_handler registry topic version = no_handler_text (versions_of topic registry) topic version

abbrev pub Handler {ℓ} : Type ℓ → Type ℓ → Type ℓ
Handler P W = P → Coroutine W (Result P)

module _ {ℓ} {P W : Type ℓ} where
  -- `context.result = result`
  abbrev pub answer : Result P → World P W → Outcome (Unit {ℓ}) × World P W
  answer result (c, w) = (returned tt, (record c { result = some result }, w))

  -- what comes of the handler's coroutine
  unfoldable pub record_outcome :
      Outcome (Result P) × W → Context P → Outcome (Unit {ℓ}) × World P W
  record_outcome (returned result, w) c = answer result (c, w)
  record_outcome (raised (error kind text), w) c =
      answer (Result.failed_with Status.service_unavailable text) (c, w)
  record_outcome (raised cancelled, w) c = (raised cancelled, (c, w))

module _ {ℓ} {T P W : Type ℓ} (repr : String → String) (type_name : Option T → String)
    (to_request : Option T → P → String ⊎ P) (registry : Registry T (Handler P W)) where
  -- no definition is selected
  unfoldable pub unmatched : World P W → Outcome (Unit {ℓ}) × World P W
  unmatched (c, w) =
      if c.ignore_unmatched_topic && is_empty (versions_of c.topic registry)
      then answer (Result.ignored none) (c, w)
      else answer (Result.failed_with Status.not_found (no_handler repr registry c.topic c.version))
          (c, w)

  -- what comes of the mapped request, or of the text of the failure to map it
  unfoldable pub run_mapped :
      HandlerDefinition T (Handler P W) → String ⊎ P → World P W → Outcome (Unit {ℓ}) × World P W
  run_mapped d (inl text) s =
      answer
        (Result.failed_with Status.bad_request
          ("Could not map request to " ⊕ type_name d.request_type ⊕ ": " ⊕ text))
        s
  run_mapped d (inr request) (c, w) = record_outcome (d.handler request w) c

  unfoldable pub dispatch :
      Option (HandlerDefinition T (Handler P W)) → World P W → Outcome (Unit {ℓ}) × World P W
  dispatch none s = unmatched s
  dispatch (some d) (c, w) = run_mapped d (to_request d.request_type c.request) (c, w)

  unfoldable pub message_router :
      (Registry T (Handler P W) → String → String → Option (HandlerDefinition T (Handler P W)))
      → Middleware (World P W)
  message_router selector next (c, w) =
      if c.topic == ""
      then answer (Result.failed_with Status.validation_error "Topic is required") (c, w)
      else if c.topic == ping_topic
      then answer (Result.ok none) (c, w)
      else dispatch (selector registry c.topic c.version) (c, w)
