-- ===== src/Mesh/Collector/Ingest.antt =====
-- The four feeds of the collector.
use benzene_python.Prelude.{
  ℕ, suc, String, true, false, not, ◌||◌, ◌&&◌, Option, none, some, List, [], ◌∷◌, ◌++◌, length,
  if◌then◌else◌, contains, ◌==◌, text_key, sorted_by, text_leb,
}
use benzene_python.Effect.{lift, Outcome, error, returned, raised, pure, look, change, ◌>>=◌, ◌>>◌}
use benzene_python.Dict.{Dict, get, put}
use benzene_python.Json.{
  Json, boolean, integer, negative, real, text, array, object, nil, cons, Members, end, member,
  members, truthy,
}
use benzene_python.Mesh.Issues.{issue_fingerprint}
use benzene_python.Mesh.Specdoc.{
  is_reserved_topic, known_members, spec_entries, spec_topic_ids, schema_catalogue, resolve_schema,
  given_text,
}
use benzene_python.Mesh.Collector.Python.{Python, iterate, or_null, or_default}
use benzene_python.Mesh.Collector.Merge.{merge_issue}
use benzene_python.Mesh.Collector.{
  Instance, Service, Event, Collector, Method, service_of, update_service, add, add_all, require,
}

-- the exception of a method that a value does not have
abbrev pub no_get : {A : Type 0} → Outcome A
no_get = raised (error "AttributeError" "object has no attribute 'get'")

abbrev pub put_schema : String → Members → Dict String Json → Dict String Json
put_schema key end spec = spec
put_schema key (member k v ms) spec = put key (object (member k v ms)) spec

abbrev pub put_version : Option String → Dict String Json
put_version none = []
put_version (some v) = ("version", text v) ∷ []

module _ (py : Python) (digest : String → String) where
  -- `_topic_spec`
  unfoldable pub topic_spec : Dict String Json → Dict String Json → Dict String Json
  topic_spec entry catalogue =
      put_schema "responseSchema" (resolve_schema (or_null (get "response" entry)) catalogue) (
        put_schema "requestSchema" (resolve_schema (or_null (get "request" entry)) catalogue)
          (put_version (given_text py.str (get "version" entry))))

  unfoldable pub topic_specs_of :
      List (String × Dict String Json)
      → Dict String Json
      → Dict String (Dict String Json)
      → Dict String (Dict String Json)
  topic_specs_of [] catalogue specs = specs
  topic_specs_of ((t, entry) ∷ rest) catalogue specs =
      topic_specs_of rest catalogue (put t (topic_spec entry catalogue) specs)

  -- a hash that is known and differs from the new one is remembered
  abbrev pub previous_hash : Service → Option Json → Option String
  previous_hash s new_hash = elim s.registration_hash [
    | none ↦ s.previous_registration_hash
    | some h ↦
        if s.registered && not (h == "") && not (py.equal (or_null new_hash) (text h))
        then some h
        else s.previous_registration_hash
  ]

  unfoldable pub reregister : Dict String Json → Service → Service
  reregister body s = record s {
    previous_registration_hash = previous_hash s (get "registrationHash" body);
    known = sorted_by text_leb (known_members py.str body);
    consumed = spec_topic_ids py.str body ("requests" ∷ []);
    produced = spec_topic_ids py.str body ("events" ∷ "sends" ∷ []);
    previous_topic_specs = s.topic_specs;
    topic_specs = topic_specs_of (spec_entries py.str body "requests") (schema_catalogue body) [];
    document = body;
    registered = true;
    registration_hash = given_text py.str (get "registrationHash" body);
  }

  abbrev pub remember_topics : Dict String Json → Collector → Collector
  remember_topics body c =
      let consumed = spec_topic_ids py.str body ("requests" ∷ []) in
      let produced = spec_topic_ids py.str body ("events" ∷ "sends" ∷ []) in
      record c {
        topics = add_all produced (add_all consumed c.topics);
        ever_consumed = add_all consumed c.ever_consumed;
      }

  -- `ingest_register`, before `Snapshot.ingest` saves the catalog, as are the other three; each
  -- answers how many entries it accepted
  unfoldable pub ingest_register : Dict String Json → Method ℕ
  ingest_register body = lift (require py.str body "service") >>= λ service.
      update_service service (reregister body) >> change (remember_topics body) >> pure 1

  abbrev pub checks_of : Option Json → Dict String Json
  checks_of (some (object ms)) = members ms
  checks_of _ = []

  abbrev pub instance_of : Dict String Json → Dict String Json → Instance
  instance_of body health = record {
    healthy = truthy (or_default (boolean false) (get "isHealthy" health));
    registration_hash = or_null (get "registrationHash" body);
    service_version = given_text py.str (get "serviceVersion" body);
    health_checks = checks_of (get "healthChecks" health);
  }

  -- `body.get(key) or default`, which is to be a dict
  abbrev pub dict_or_empty : Option Json → Outcome (Dict String Json)
  dict_or_empty none = returned []
  dict_or_empty (some (object ms)) = returned (members ms)
  dict_or_empty (some v) = if truthy v then no_get else returned []

  abbrev pub heard : String → Instance → Service → Service
  heard id i s = record s { instances = put id i s.instances }

  unfoldable pub ingest_heartbeat : Dict String Json → Method ℕ
  ingest_heartbeat body = lift (require py.str body "service") >>= λ service.
      service_of service >>= λ s. lift (dict_or_empty (get "health" body)) >>= λ health.
      update_service service
        (heard (py.str (or_default (text "") (get "instanceId" body))) (instance_of body health))
      >> pure 1

  abbrev pub sound_duration : Outcome Json → Outcome Json
  sound_duration (returned d) = returned (if py.is_duration d then d else real true "0.0")
  sound_duration (raised x) = raised x

  -- `_duration_ms`
  unfoldable pub duration_ms : Json → Outcome Json
  duration_ms (integer n) = sound_duration (py.float (integer n))
  duration_ms (negative n) = sound_duration (py.float (negative n))
  duration_ms (real z s) = sound_duration (py.float (real z s))
  duration_ms v = returned (real true "0.0")

  -- `str(raw.get(key, ""))`
  abbrev pub text_of : String → Dict String Json → String
  text_of key raw = py.str (or_default (text "") (get key raw))

  abbrev pub timed_event : Dict String Json → Json → Event
  timed_event raw duration = record {
    trace_id = text_of "traceId" raw;
    span_id = text_of "spanId" raw;
    parent_span_id = or_null (get "parentSpanId" raw);
    service = text_of "service" raw;
    topic = text_of "topic" raw;
    status = text_of "status" raw;
    started_at = or_null (get "startedAt" raw);
    duration_ms = duration;
  }

  abbrev pub event_lasting : Dict String Json → Outcome Json → Outcome Event
  event_lasting raw (returned duration) = returned (timed_event raw duration)
  event_lasting raw (raised x) = raised x

  -- the event of an entry, or the exception of reading its duration
  unfoldable pub event_of : Dict String Json → Outcome Event
  event_of raw = event_lasting raw (duration_ms (or_null (get "durationMs" raw)))

  abbrev pub drift_issue : String → String → String → String → Dict String Json
  drift_issue fingerprint service topic trace_id =
      ("fingerprint", text fingerprint)
      ∷ ("classification", text "contract-drift")
      ∷ ("service", text service)
      ∷ ("topic", text topic)
      ∷ ("status", text "")
      ∷ ("count", integer 1)
      ∷ ("exemplarTraceIds", array (if trace_id == "" then nil else cons (text trace_id) nil))
      ∷ []

  -- `_flag_drift_if_undeclared`
  unfoldable pub flag_drift : Service → String → List String → String → Method Unit
  flag_drift s topic declared trace_id =
      if not s.registered || contains topic declared || is_reserved_topic topic
      then pure tt
      else let fingerprint =
          issue_fingerprint digest s.name topic "" "contract-drift" "undeclared-edge" in
        merge_issue py fingerprint (drift_issue fingerprint s.name topic trace_id)

  -- `self._span_owner.get(parent) if parent else None`
  unfoldable pub owner_of : Json → Dict String String → Outcome (Option String)
  owner_of (text s) owners = returned (if s == "" then none else get s owners)
  owner_of (array (cons v vs)) owners = raised (error "TypeError" "unhashable type: 'list'")
  owner_of (object (member k v ms)) owners = raised (error "TypeError" "unhashable type: 'dict'")
  owner_of v owners = returned none

  abbrev pub flag_callee : Event → Service → Method Unit
  flag_callee event callee =
      if contains "requests" callee.known
      then flag_drift callee event.topic callee.consumed event.trace_id
      else pure tt

  -- a caller that asserted both its events and its sends
  abbrev pub flag_known_caller : Event → Option Service → Method Unit
  flag_known_caller event none = pure tt
  flag_known_caller event (some caller) =
      if contains "events" caller.known && contains "sends" caller.known
      then flag_drift caller event.topic caller.produced event.trace_id
      else pure tt

  abbrev pub flag_caller : Event → Option String → Method Unit
  flag_caller event none = pure tt
  flag_caller event (some caller_name) =
      if caller_name == "" || caller_name == event.service
      then pure tt
      else look (λ c. get caller_name c.services) >>= flag_known_caller event

  abbrev pub note_event : Event → Collector → Collector
  note_event event c = record c {
    events = c.events ++ event ∷ [];
    span_owner = put event.span_id event.service c.span_owner;
    topics = add event.topic c.topics;
  }

  unfoldable pub ingest_event : Event → Method Unit
  ingest_event event =
      change (note_event event)
      >> service_of event.service
      >>= flag_callee event
      >> look (λ c. owner_of event.parent_span_id c.span_owner)
      >>= λ o. lift o >>= flag_caller event

  abbrev pub ingest_raw : Json → Method Unit
  ingest_raw (object ms) = lift (event_of (members ms)) >>= ingest_event
  ingest_raw v = lift no_get

  unfoldable pub ingest_raws : List Json → Method Unit
  ingest_raws [] = pure tt
  ingest_raws (v ∷ vs) = ingest_raw v >> ingest_raws vs

  -- `body.get(key) or []`, iterated
  abbrev pub values_of : Option Json → Outcome (List Json)
  values_of none = returned []
  values_of (some v) = if truthy v then iterate v else returned []

  unfoldable pub ingest_traces : Dict String Json → Method ℕ
  ingest_traces body =
      lift (values_of (get "events" body)) >>= λ events. ingest_raws events >> pure (length events)

  abbrev pub report_issues : Service → Service
  report_issues s = record s { reported_issues = true }

  abbrev pub merge_identified : Option String → Dict String Json → ℕ → Method ℕ
  merge_identified none issue accepted = pure accepted
  merge_identified (some fingerprint) issue accepted =
      merge_issue py fingerprint issue >> pure (suc accepted)

  abbrev pub ingest_issue : Json → ℕ → Method ℕ
  ingest_issue (object ms) accepted =
      merge_identified (given_text py.str (get "fingerprint" (members ms))) (members ms) accepted
  ingest_issue v accepted = lift no_get

  unfoldable pub merge_issues : List Json → ℕ → Method ℕ
  merge_issues [] accepted = pure accepted
  merge_issues (v ∷ vs) accepted = ingest_issue v accepted >>= merge_issues vs

  unfoldable pub ingest_issues : Dict String Json → Method ℕ
  ingest_issues body = lift (require py.str body "service") >>= λ service.
      update_service service report_issues >> lift (values_of (get "issues" body)) >>= λ issues.
      merge_issues issues 0
