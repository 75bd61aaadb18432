-- ===== src/Mesh/Collector/Queries.antt =====
-- The read models of the collector, but for the fleet's recent flows. A query does not change the
-- catalog. Python's `repr` of a name in a message is a parameter.
pub mod Tallies
use benzene_python.Prelude.{
  number_key, ℕ, suc, ◌+◌, String, ◌⊕◌, ◌≡◌, Bool, true, false, not, ◌||◌, ◌&&◌, any, Option, none,
  some, List, [], ◌∷◌, ◌++◌, map, select, length, if◌then◌else◌, contains, ◌==◌, text_key,
}
use benzene_python.Effect.{Outcome, Fault, error, returned, raised}
use benzene_python.Dict.{Dict, get, put, has_key, values}
use benzene_python.Json.{
  Json, null, boolean, integer, text, array, object, Items, nil, cons, Members, end, member, truthy,
}
use benzene_python.Results.Status.{is_successful}
use benzene_python.Mesh.Issues.{amount}
use benzene_python.Mesh.Aggregator.{text_items}
use benzene_python.Mesh.Collector.Python.{Python}
use benzene_python.Mesh.Collector.{
  Instance, Service, Event, Collector, require, providers_of, consumers_of,
}
use benzene_python.Mesh.Collector.Ingest.{owner_of}

-- what follows a computation that may raise
abbrev pub and_then : {A B : Type 0} → Outcome A → (A → Outcome B) → Outcome B
and_then (raised x) rest = raised x
and_then (returned a) rest = rest a

abbrev pub events_on : String → List Event → List Event
events_on topic = select (λ (e : Event). e.topic == topic)

abbrev pub events_by : String → List Event → List Event
events_by service = select (λ (e : Event). e.service == service)

unfoldable pub invocations_on : String → Collector → ℕ
invocations_on topic c = length (events_on topic c.events)

unfoldable pub invocations_by : String → Collector → ℕ
invocations_by service c = length (events_by service c.events)

abbrev pub healths : Service → List Bool
healths s = map (λ (p : String × Instance). p.1.healthy) s.instances

abbrev pub health_of : List Bool → String
health_of [] = "unknown"
health_of (h ∷ hs) =
    if not (any not (h ∷ hs))
    then "healthy"
    else if not (any (λ b. b) (h ∷ hs))
    then "unhealthy"
    else "degraded"

unfoldable pub health : Service → String
health s = health_of (healths s)

unfoldable pub has_failure : Service → Collector → Bool
has_failure s c = any (λ (e : Event). e.service == s.name && not (is_successful e.status)) c.events

abbrev pub has_any : {A : Type 0} → List A → Bool
has_any [] = false
has_any (x ∷ xs) = true

abbrev pub missing_if : Bool → String → List String → List String
missing_if present feed rest = if present then rest else feed ∷ rest

unfoldable pub missing_feeds : Service → Collector → List String
missing_feeds s c = missing_if s.registered "descriptor" (
    missing_if (has_any s.instances) "health" (
      missing_if (has_any (events_by s.name c.events)) "traces"
        (missing_if (s.reported_issues || not (has_failure s c)) "issues" [])))

abbrev pub array_member : String → List String → Members → Members
array_member key [] rest = rest
array_member key (x ∷ xs) rest = member key (array (text_items (x ∷ xs))) rest

abbrev pub count_member : String → ℕ → Members → Members
count_member key n rest = if n == 0 then rest else member key (integer n) rest

unfoldable pub fleet_service_entry : Service → Collector → Members
fleet_service_entry s c = member "service" (text s.name) (
    member "topics" (integer (length s.consumed)) (
      member "health" (text (health s)) (
        member "missingFeeds" (array (text_items (missing_feeds s c)))
          (count_member "instances" (length s.instances) end))))

-- `Counter`: by first occurrence
unfoldable pub count_statuses : List Event → Dict String ℕ → Dict String ℕ
count_statuses [] counts = counts
count_statuses (e ∷ es) counts =
    count_statuses es (put e.status (suc (amount (get e.status counts))) counts)

abbrev pub count_failures : List Event → ℕ
count_failures es = length (select (λ (e : Event). not (is_successful e.status)) es)

abbrev pub counts_members : Dict String ℕ → Members
counts_members [] = end
counts_members ((status, n) ∷ counts) = member status (integer n) (counts_members counts)

abbrev pub event_counts : List Event → Members → Members
event_counts [] rest = rest
event_counts (e ∷ es) rest =
    member "errors" (integer (count_failures (e ∷ es)))
      (member "statusCounts" (object (counts_members (count_statuses (e ∷ es) []))) rest)

module _ (py : Python) (digest : String → String) (repr : String → String) where
  abbrev pub not_found : {A : Type 0} → String → String → Outcome A
  not_found what name =
      raised (error "CollectorNotFound" ("No " ⊕ what ⊕ " " ⊕ repr name ⊕ " in the catalog"))

  -- `_note_observed`: the latest time at which a service was seen, null where none is known
  abbrev pub later : String → Json → Dict String Json → Bool → Dict String Json
  later service started_at observed true = put service started_at observed
  later service started_at observed false =
      if has_key service observed then observed else put service null observed

  abbrev pub note_started :
      String → Json → Dict String Json → Option Json → Outcome (Dict String Json)
  note_started service started_at observed (some null) = returned (put service started_at observed)
  note_started service started_at observed none = returned (put service started_at observed)
  note_started service started_at observed (some current) =
      and_then (py.less current started_at) (λ b. returned (later service started_at observed b))

  unfoldable pub note_observed : Dict String Json → String → Json → Outcome (Dict String Json)
  note_observed observed service started_at =
      if truthy started_at
      then note_started service started_at observed (get service observed)
      else returned (later service started_at observed false)

  unfoldable pub observed_handlers : List Event → Dict String Json → Outcome (Dict String Json)
  observed_handlers [] observed = returned observed
  observed_handlers (e ∷ es) observed =
      and_then (note_observed observed e.service e.started_at) (observed_handlers es)

  abbrev pub note_caller : Event → Dict String Json → Option String → Outcome (Dict String Json)
  note_caller e observed none = returned observed
  note_caller e observed (some caller) =
      if caller == "" || caller == e.service
      then returned observed
      else note_observed observed caller e.started_at

  unfoldable pub observed_callers :
      Dict String String → List Event → Dict String Json → Outcome (Dict String Json)
  observed_callers owners [] observed = returned observed
  observed_callers owners (e ∷ es) observed =
      and_then (and_then (owner_of py digest e.parent_span_id owners) (note_caller e observed))
        (observed_callers owners es)

  abbrev pub activity_of : Option Json → Members
  activity_of none = end
  activity_of (some v) = if truthy v then member "lastObservedAt" v end else end

  unfoldable pub edge_activity : Dict String Json → List String → Members
  edge_activity observed [] = end
  edge_activity observed (name ∷ names) =
      member name (object (activity_of (get name observed))) (edge_activity observed names)

  -- the activity of declared edges, if there are any
  abbrev pub activity_member :
      String → List String → Outcome (Dict String Json) → Outcome Members → Outcome Members
  activity_member key [] observed rest = rest
  activity_member key (n ∷ ns) observed rest =
      and_then observed
        (λ o. and_then rest (λ ms. returned (member key (object (edge_activity o (n ∷ ns))) ms)))

  abbrev pub topic_report : String → Collector → List Event → Outcome Members
  topic_report topic c es =
      and_then
        (activity_member "providerActivity" (providers_of topic c)
          (observed_callers c.span_owner es [])
          (activity_member "consumerActivity" (consumers_of topic c) (observed_handlers es [])
            (returned end)))
        (λ activity. returned (
          member "topic" (text topic) (
            member "providers" (array (text_items (providers_of topic c))) (
              member "consumers" (array (text_items (consumers_of topic c)))
                (member "invocations" (integer (length es)) (event_counts es activity))))))

  unfoldable pub query_topic : Dict String Json → Collector → Outcome Members
  query_topic body c = and_then (require py.str body "topic") (λ topic.
      if contains topic c.topics
      then topic_report topic c (events_on topic c.events)
      else not_found "topic" topic)

  abbrev pub instance_items : Service → Dict String Instance → Items
  instance_items s [] = nil
  instance_items s ((id, i) ∷ rest) =
      cons
        (object (
          member "instanceId" (text id) (
            member "healthy" (boolean i.healthy) (
              member "hashMatches"
                (boolean (
                  py.equal i.registration_hash
                    (elim s.registration_hash [ none ↦ null | some h ↦ text h ])))
                end))))
        (instance_items s rest)

  abbrev pub instances_members : Service → Dict String Instance → Members → Members
  instances_members s [] rest = rest
  instances_members s (i ∷ is) rest =
      member "health" (text (health s))
        (member "instances" (array (instance_items s (i ∷ is))) rest)

  abbrev pub service_report : String → Collector → Option Service → Outcome Members
  service_report name c none = not_found "service" name
  service_report name c (some s) = returned (
      member "service" (text name) (
        instances_members s s.instances (
          count_member "invocations" (invocations_by name c)
            (array_member "missingFeeds" (missing_feeds s c) end))))

  unfoldable pub query_service : Dict String Json → Collector → Outcome Members
  query_service body c =
      and_then (require py.str body "service") (λ name. service_report name c (get name c.services))

  abbrev pub span_items : List Event → Items
  span_items [] = nil
  span_items (e ∷ es) =
      cons (object (member "spanId" (text e.span_id) (member "service" (text e.service) end)))
        (span_items es)

  abbrev pub trace_report : String → List Event → Outcome Members
  trace_report trace_id [] = not_found "trace" trace_id
  trace_report trace_id (e ∷ es) =
      returned
        (member "traceId" (text trace_id) (member "events" (array (span_items (e ∷ es))) end))

  unfoldable pub query_trace : Dict String Json → Collector → Outcome Members
  query_trace body c =
      and_then (require py.str body "traceId") (λ trace_id.
        trace_report trace_id (select (λ (e : Event). e.trace_id == trace_id) c.events))
