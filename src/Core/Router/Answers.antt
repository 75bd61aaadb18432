-- ===== src/Core/Router/Answers.antt =====
-- What a message gets from the router.
use benzene_python.Prelude.{
  is_empty, String, Bool, true, false, ◌≡◌, ◌≢◌, refl, ◌⊎◌, inl, inr, Option, none, some, arith,
  is_some, ◌&&◌, if◌then◌else◌, ◌==◌, text_key, pair_key, same_refl,
}
use benzene_python.Effect.{error, cancelled, Outcome, returned, raised}
use benzene_python.Results.Status
use benzene_python.Results.Result
use benzene_python.Results.Result.{Result}
use benzene_python.Core.Context.{World, Context}
use benzene_python.Core.Pipeline.{Next}
use benzene_python.Core.Registry.{
  HandlerDefinition, Registry, add_definition, lookup, exact_version, default_for, versions_of,
}
use benzene_python.Core.Registry.Defaults.{lookup-add_definition}
use benzene_python.Core.Router.{
  Handler, ping_topic, answer, record_outcome, unmatched, run_mapped, dispatch, message_router,
  no_handler,
}

-- Either there is an answer, or the task was cancelled.
abbrev pub Answered {ℓ} : {P W : Type ℓ} → Outcome (Unit {ℓ}) × World P W → Type ℓ
Answered o = (o.0 ≡ raised cancelled) ⊎ ((o.0 ≡ returned tt) × (is_some (o.1.0.result) ≡ true))

Answered-record_outcome {ℓ} :
    {P W : Type ℓ} (o : Outcome (Result P) × W) (c : Context P) → Answered (record_outcome o c)
unfolding record_outcome
Answered-record_outcome (returned r, w) c = inr (refl, refl)
Answered-record_outcome (raised (error kind text), w) c = inr (refl, refl)
Answered-record_outcome (raised cancelled, w) c = inl refl

Answered-if {ℓ} :
    {P W : Type ℓ} (b : Bool) (o o' : Outcome (Unit {ℓ}) × World P W)
    → Answered o
    → Answered o'
    → Answered (if b then o else o')
Answered-if true o o' h h' = h
Answered-if false o o' h h' = h'

module _ {ℓ} {T P W : Type ℓ} (repr : String → String) (type_name : Option T → String)
    (to_request : Option T → P → String ⊎ P) (registry : Registry T (Handler P W)) where
  abbrev pub router :
      (Registry T (Handler P W) → String → String → Option (HandlerDefinition T (Handler P W)))
      → Next (World P W)
      → Next (World P W)
  router = message_router repr type_name to_request registry

  Answered-run_mapped :
      (d : HandlerDefinition T (Handler P W)) (m : String ⊎ P) (s : World P W)
      → Answered (run_mapped repr type_name to_request registry d m s)
  unfolding run_mapped
  Answered-run_mapped d (inl text) s = inr (refl, refl)
  Answered-run_mapped d (inr request) (c, w) = Answered-record_outcome (d.handler request w) c

  Answered-dispatch :
      (o : Option (HandlerDefinition T (Handler P W))) (s : World P W)
      → Answered (dispatch repr type_name to_request registry o s)
  unfolding dispatch unmatched
  Answered-dispatch none (c, w) = Answered-if _ _ _ (inr (refl, refl)) (inr (refl, refl))
  Answered-dispatch (some d) (c, w) =
      Answered-run_mapped d (to_request d.request_type c.request) (c, w)

  -- The router ends every message it is given with a result, whatever the selector picks and the
  -- handler does, and never with an exception; only a cancellation passes through. What stands
  -- behind the router is never run.
  pub router_answers :
      (selector : Registry T (Handler P W)
        → String
        → String
        → Option (HandlerDefinition T (Handler P W)))
      (next next' : Next (World P W)) (c : Context P) (w : W)
      → Answered (router selector next (c, w))
        × (router selector next (c, w) ≡ router selector next' (c, w))
  unfolding message_router
  router_answers selector next next' c w =
      let served =
        dispatch repr type_name to_request registry (selector registry c.topic c.version) (c, w) in
      let probed = if c.topic == ping_topic then answer (Result.ok none) (c, w) else served in
      (
        Answered-if (c.topic == "")
            (answer (Result.failed_with Status.validation_error "Topic is required") (c, w)) probed
            (inr (refl, refl))
            (Answered-if (c.topic == ping_topic) (answer (Result.ok none) (c, w)) served
              (inr (refl, refl)) (Answered-dispatch (selector registry c.topic c.version) (c, w))),
        refl,
      )

  -- A version that a topic does not serve is never answered by another, where the topic is not
  -- empty and not the ping and the message names a version: it gets not-found, unless the topic
  -- has no handler at all and unmatched topics are to be ignored.
  pub router_no_fallback :
      (next : Next (World P W)) (c : Context P) (w : W)
      → c.topic ≢ ""
      → c.topic ≢ ping_topic
      → c.version ≢ ""
      → lookup c.topic c.version registry ≡ none
      → (is_empty (versions_of c.topic registry) && c.ignore_unmatched_topic) ≡ false
      → router exact_version next (c, w)
        ≡ answer
            (Result.failed_with Status.not_found (no_handler repr registry c.topic c.version))
            (c, w)
  unfolding message_router dispatch unmatched exact_version
  router_no_fallback next c w some_topic no_ping versioned missing known = ground (
    arith,
    text_key.same_iff c.topic "",
    text_key.same_iff c.topic ping_topic,
    text_key.same_iff c.version "",
  )

module _ {ℓ} {P W : Type ℓ} where
  -- How a message ends whose handler came to an outcome: with the handler's result, or with
  -- service-unavailable and the exception's text; a cancellation passes through.
  abbrev pub Served : Outcome (Result P) × W → Context P → Outcome (Unit {ℓ}) × World P W → Type ℓ
  Served (returned r, v) c out = out ≡ (returned tt, (record c { result = some r }, v))
  Served (raised (error kind text), v) c out = out ≡ (
    returned tt,
    (record c { result = some (Result.failed_with "service-unavailable" text) }, v),
  )
  Served (raised cancelled, v) c out = out ≡ (raised cancelled, (c, v))

  Served-record_outcome :
      (o : Outcome (Result P) × W) (c : Context P) (out : Outcome (Unit {ℓ}) × World P W)
      → out ≡ record_outcome o c
      → Served o c out
  unfolding record_outcome
  Served-record_outcome (returned r, v) c out same = same
  Served-record_outcome (raised (error kind text), v) c out same = same
  Served-record_outcome (raised cancelled, v) c out same = same

module _ {ℓ} {T P W : Type ℓ} (repr : String → String) (type_name : Option T → String)
    (to_request : Option T → P → String ⊎ P) (registry registry' : Registry T (Handler P W)) where
  -- A handler whose registration is accepted runs on the messages of its topic and version,
  -- versionless messages included if it has no version, where the topic is not empty and not the
  -- ping and the request maps onto the declared type: the context ends with the handler's result,
  -- or with service-unavailable and the exception's text if it raises, while a cancellation passes
  -- through; and what else the context holds is as it was.
  pub router_serves :
      (d : HandlerDefinition T (Handler P W)) (next : Next (World P W)) (c : Context P) (w : W)
      (request : P)
      → add_definition d registry ≡ some registry'
      → c.topic ≡ d.topic
      → c.version ≡ d.version
      → c.topic ≢ ""
      → c.topic ≢ ping_topic
      → to_request d.request_type c.request ≡ inr request
      → Served
          (d.handler request w)
          c
          (router repr type_name to_request registry' exact_version next (c, w))
  unfolding message_router dispatch run_mapped exact_version default_for lookup
  router_serves d next c w request added topic version some_topic no_ping mapped =
      let found = (lookup-add_definition d registry registry' c.topic c.version added).1 in
      Served-record_outcome (d.handler request w) c _ (
        ground (
          arith,
          found,
          text_key.same_iff c.topic "",
          text_key.same_iff c.topic ping_topic,
          text_key.same_iff c.version "",
          same_refl d.topic,
          same_refl d.version,
        ))
