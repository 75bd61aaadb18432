-- ===== src/Mesh/Collector/Snapshot.antt =====
-- The snapshot of a catalog, and its restoring. A snapshot whose members are of other types than
-- those that snapshot writes is not read here: `none`.
pub mod Trip
use benzene_python.Prelude.{
  ℕ, String, ◌≡◌, Bool, true, false, Option, none, some, List, [], ◌∷◌, map, if◌then◌else◌, ◌==◌,
  text_key, sorted_by, text_leb, Option-cases,
}
use benzene_python.Effect.{Coroutine, Outcome, returned, raised, lift, look, pure, ◌>>=◌, ◌>>◌}
use benzene_python.Dict.{Dict, get, put, from_pairs}
use benzene_python.Json.{
  Json, null, boolean, integer, text, array, object, Items, items, to_items, Members, members,
  to_members, truthy,
}
use benzene_python.Mesh.Aggregator.{text_items}
use benzene_python.Mesh.Collector.Python.{Python, or_null, or_default}
use benzene_python.Mesh.Collector.Ingest.{text_of, event_of}
use benzene_python.Mesh.Collector.{Instance, Service, Event, Collector, Method}

abbrev pub snapshot_version : ℕ
snapshot_version = 4

abbrev pub text_or_null : Option String → Json
text_or_null none = null
text_or_null (some s) = text s

abbrev pub texts : List String → Json
texts ss = array (text_items ss)

abbrev pub dict_json : Dict String Json → Json
dict_json d = object (to_members d)

abbrev pub dicts_json : Dict String (Dict String Json) → Json
dicts_json d = dict_json (map (λ (p : String × Dict String Json). (p.0, dict_json p.1)) d)

abbrev pub instance_json : String × Instance → Json
instance_json p = dict_json (
    ("instanceId", text (p.0))
    ∷ ("healthy", boolean (p.1.healthy))
    ∷ ("registrationHash", p.1.registration_hash)
    ∷ ("serviceVersion", text_or_null (p.1.service_version))
    ∷ ("healthChecks", dict_json (p.1.health_checks))
    ∷ [])

abbrev pub service_json : Service → Json
service_json s = dict_json (
    ("name", text s.name)
    ∷ ("registered", boolean s.registered)
    ∷ ("registrationHash", text_or_null s.registration_hash)
    ∷ ("previousRegistrationHash", text_or_null s.previous_registration_hash)
    ∷ ("consumed", texts s.consumed)
    ∷ ("produced", texts s.produced)
    ∷ ("known", texts s.known)
    ∷ ("document", dict_json s.document)
    ∷ ("topicSpecs", dicts_json s.topic_specs)
    ∷ ("previousTopicSpecs", dicts_json s.previous_topic_specs)
    ∷ ("reportedIssues", boolean s.reported_issues)
    ∷ ("instances", array (to_items (map instance_json s.instances)))
    ∷ [])

abbrev pub event_json : Event → Json
event_json e = dict_json (
    ("traceId", text e.trace_id)
    ∷ ("spanId", text e.span_id)
    ∷ ("parentSpanId", e.parent_span_id)
    ∷ ("service", text e.service)
    ∷ ("topic", text e.topic)
    ∷ ("status", text e.status)
    ∷ ("startedAt", e.started_at)
    ∷ ("durationMs", e.duration_ms)
    ∷ [])

unfoldable pub snapshot : Collector → Dict String Json
snapshot c =
    ("version", integer snapshot_version)
    ∷ ("services", array (to_items (map (λ (p : String × Service). service_json p.1) c.services)))
    ∷ ("topics", texts (sorted_by text_leb c.topics))
    ∷ ("everConsumed", texts (sorted_by text_leb c.ever_consumed))
    ∷ ("events", array (to_items (map event_json c.events)))
    ∷ ("issues", dicts_json c.issues)
    ∷ []

abbrev pub if_returned : {A : Type 0} → Outcome A → Option A
if_returned (returned a) = some a
if_returned (raised x) = none

-- each part of a list read, or none
abbrev pub with_rest : {A : Type 0} → Option A → Option (List A) → Option (List A)
with_rest (some a) (some as') = some (a ∷ as')
with_rest _ _ = none

abbrev pub read_all : {A B : Type 0} → (A → Option B) → List A → Option (List B)
read_all f [] = some []
read_all f (a ∷ as') = with_rest (f a) (read_all f as')

abbrev pub array_of : Option Json → Option (List Json)
array_of none = some []
array_of (some (array vs)) = some (items vs)
array_of (some v) = none

abbrev pub object_of : Option Json → Option (Dict String Json)
object_of none = some []
object_of (some (object ms)) = some (members ms)
object_of (some v) = none

abbrev pub read_text : Json → Option String
read_text (text s) = some s
read_text v = none

abbrev pub hash_of : Option Json → Option (Option String)
hash_of none = some none
hash_of (some null) = some none
hash_of (some (text s)) = some (some s)
hash_of (some v) = none

abbrev pub read_in : {A B : Type 0} → (A → Option B) → Option (List A) → Option (List B)
read_in f none = none
read_in f (some as') = read_all f as'

abbrev pub dict_entry : String × Json → Option (String × Dict String Json)
dict_entry (k, object ms) = some (k, members ms)
dict_entry (k, v) = none

abbrev pub texts_of : Option Json → Option (List String)
texts_of o = read_in read_text (array_of o)

abbrev pub dicts_of : Option Json → Option (Dict String (Dict String Json))
dicts_of o = read_in dict_entry (object_of o)

abbrev pub flag_of : Option Json → Bool
flag_of o = truthy (or_default (boolean false) o)

abbrev pub for_some : {A B : Type 0} → Option A → (A → Option B) → Option B
for_some none f = none
for_some (some a) f = f a

module _ (py : Python) (digest : String → String) where
  unfoldable pub read_instance : Json → Option (String × Instance)
  read_instance (object ms) =
      let entry = members ms in
      for_some (get "instanceId" entry) (λ id.
        for_some (hash_of (get "serviceVersion" entry)) (λ version.
          for_some (object_of (get "healthChecks" entry)) (λ checks. some (
            py.str id,
            record {
              healthy = flag_of (get "healthy" entry);
              registration_hash = or_null (get "registrationHash" entry);
              service_version = version;
              health_checks = checks;
            },
          ))))
  read_instance v = none

  unfoldable pub read_service : Json → Option Service
  read_service (object ms) =
      let entry = members ms in
      for_some (get "name" entry) (λ name.
        for_some (hash_of (get "registrationHash" entry)) (λ hash.
          for_some (hash_of (get "previousRegistrationHash" entry)) (λ previous.
            for_some (texts_of (get "consumed" entry)) (λ consumed.
              for_some (texts_of (get "produced" entry)) (λ produced.
                for_some (texts_of (get "known" entry)) (λ known.
                  for_some (object_of (get "document" entry)) (λ document.
                    for_some (dicts_of (get "topicSpecs" entry)) (λ specs.
                      for_some (dicts_of (get "previousTopicSpecs" entry)) (λ previous_specs.
                        for_some (read_in read_instance (array_of (get "instances" entry)))
                          (λ instances. some (record {
                            name = py.str name;
                            registered = flag_of (get "registered" entry);
                            registration_hash = hash;
                            previous_registration_hash = previous;
                            consumed = consumed;
                            produced = produced;
                            known = known;
                            document = document;
                            topic_specs = specs;
                            previous_topic_specs = previous_specs;
                            instances = from_pairs instances [];
                            reported_issues = flag_of (get "reportedIssues" entry);
                          })))))))))))
  read_service v = none

  abbrev pub read_event : Json → Option Event
  read_event (object ms) = if_returned (event_of py digest (members ms))
  read_event v = none

  abbrev pub by_name : Service → String × Service
  by_name s = (s.name, s)

  -- `self._span_owner`, rebuilt from the events
  abbrev pub owner_entry : Event → String × String
  owner_entry e = (e.span_id, e.service)

  abbrev pub read_catalog : Dict String Json → Option Collector
  read_catalog saved =
      for_some (read_in read_service (array_of (get "services" saved))) (λ services.
        for_some (texts_of (get "topics" saved)) (λ topics.
          for_some (texts_of (get "everConsumed" saved)) (λ ever_consumed.
            for_some (read_in read_event (array_of (get "events" saved))) (λ events.
              for_some (dicts_of (get "issues" saved)) (λ issues. some (record {
                services = from_pairs (map by_name services) [];
                topics = topics;
                ever_consumed = ever_consumed;
                events = events;
                span_owner = from_pairs (map owner_entry events) [];
                issues = issues;
              }))))))

  -- a snapshot of another version is ignored
  unfoldable pub restore : Dict String Json → Collector → Option Collector
  restore saved c =
      if py.equal (or_null (get "version" saved)) (integer snapshot_version)
      then read_catalog saved
      else some c

-- `CollectorStore`: a service's client or a file, so that its state is a parameter
pub record Store (S : Type 0) : Type 0 where
  pub load : Coroutine S (Option (Dict String Json))
  pub save : Dict String Json → Coroutine S Unit

-- `NullCollectorStore`
abbrev pub null_store : {S : Type 0} → Store S
null_store = record { load = pure none; save = λ saved. pure tt }

-- `_persisted` answers with the result, unless the saving raised
abbrev pub after_save : {A : Type 0} → Outcome (Unit {0}) → A → Outcome A
after_save (returned t) a = returned a
after_save (raised x) a = raised x

module _ {S : Type 0} (store : Store S) where
  -- `_persisted`
  unfoldable pub persisted : {A : Type 0} → A → Coroutine (Collector × S) A
  persisted a (c, s) = let (o, s') = store.save (snapshot c) s in (after_save o a, (c, s'))

  abbrev pub saved_after : {A : Type 0} → Outcome A → Coroutine (Collector × S) A
  saved_after (raised x) w = (raised x, w)
  saved_after (returned a) w = persisted a w

  -- an ingest of the collector: a method of the catalog, then its saving
  unfoldable pub ingest : {A : Type 0} → Method A → Coroutine (Collector × S) A
  ingest method (c, s) = let (o, c') = method c in saved_after o (c', s)
