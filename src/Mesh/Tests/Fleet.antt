-- ===== src/Mesh/Tests/Fleet.antt =====
-- A small fleet reports to the collector.
use benzene_python.Prelude.{
  ◌⊎◌, ◌↔◌, number_key, ℤ, pos, negsuc, ◌+ℤ◌, String, ◌≡◌, ◌≢◌, refl, Bool, true, false, not, ◌||◌,
  ◌&&◌, none, some, List, [], ◌∷◌, is_some, ◌==◌, text_key, arith, text_leb, sorted_by, insert_by,
  ℕ,
}
use benzene_python.Effect.{Outcome, returned, raised, error}
use benzene_python.Dict.{from_pairs, Dict, get, put, remove}
use benzene_python.Json.{
  Json, null, integer, negative, real, text, array, object, Items, nil, cons, end, member, truthy,
}
use benzene_python.Results.Result
use benzene_python.Mesh.Issues.{decode_issue_errors, merge_issue_errors, tally}
use benzene_python.Mesh.Specdoc.{
  is_reserved_topic, known_members, spec_entries, spec_topic_ids, topic_of_entry, schema_catalogue,
  resolve_value, resolve_within, resolve_schema,
}
use benzene_python.Mesh.Specdoc.References.{refers, resolve_schema_ends, resolve_schema_closed}
use benzene_python.Mesh.Collector.Python.{Python, from_ℤ, iterate}
use benzene_python.Mesh.Collector.Merge.{
  merge_issue, safe_int, update_issue, first_issue, merge_errors, latest_wins, add_count,
  add_exemplars, widen,
}
use benzene_python.Mesh.Collector.{
  Service, Event, Collector, empty, new_service, found_or_new, require, update_service,
  providers_of, consumers_of,
}
use benzene_python.Mesh.Collector.Ingest.{
  duration_ms, reregister, topic_spec, topic_specs_of, ingest_register, ingest_heartbeat,
  ingest_traces, ingest_issues, merge_issues, ingest_event,
}
use benzene_python.Mesh.Collector.Graph.{feeds_same_graph}
use benzene_python.Mesh.Collector.Declared.{Declares}
use benzene_python.Mesh.Collector.Registration.{consumes, provides, ingest_register_replaces}
use benzene_python.Mesh.Collector.Valid.{IsValid, ingests_keep-IsValid}
use benzene_python.Mesh.Collector.Sums.{recorded, sum_of, merge_issues_counts}
use benzene_python.Mesh.Collector.Drift.{undeclared, drift_fingerprint, ingest_event_drift}
use benzene_python.Mesh.Collector.Snapshot.{snapshot, restore, persisted, ingest, null_store}
use benzene_python.Mesh.Collector.Snapshot.Trip.{IsKept, restore-snapshot}
use benzene_python.Mesh.Collector.Handlers.{ingest_handler, unnamed_is_rejected}
use benzene_python.Mesh.Collector.Queries.{missing_feeds, has_failure, query_trace}
use benzene_python.Results.Status.{is_successful}

-- the built-ins on the values below
abbrev str : Json → String
str (text s) = s
str null = "None"
str v = "?"

abbrev int : Json → Outcome ℤ
int (integer n) = returned (pos n)
int (negative n) = returned (negsuc n)
int v = raised (error "TypeError" "int() argument")

abbrev equal : Json → Json → Bool
equal (text s) (text t) = s == t
equal (integer m) (integer n) = m == n
equal v w = false

abbrev less : Json → Json → Outcome Bool
less (text s) (text t) = returned (text_leb s t && not (s == t))
less v w = raised (error "TypeError" "'<' not supported")

abbrev py : Python
py = record {
  str = str;
  int = int;
  equal = equal;
  less = less;
  float = λ v. returned v;
  is_duration = λ v. true;
}

int_ℤ : (z : ℤ) → int (from_ℤ z) ≡ returned z
int_ℤ (pos n) = refl
int_ℤ (negsuc n) = refl

abbrev digest : String → String
digest s = s

abbrev entry : String → Items → Items
entry topic = cons (object (member "topic" (text topic) end))

-- the shop handles orders, and publishes that one was placed
abbrev shop_document : Dict String Json
shop_document =
    ("service", text "shop")
    ∷ ("requests", array (entry "orders:create" (entry "benzene:spec" nil)))
    ∷ ("events", array (entry "orders:placed" nil))
    ∷ ("sends", array nil)
    ∷ ("registrationHash", text "h1")
    ∷ []

abbrev shop : Service
shop = record {
  name = "shop";
  registered = true;
  registration_hash = some "h1";
  previous_registration_hash = none;
  consumed = "orders:create" ∷ [];
  produced = "orders:placed" ∷ [];
  known = "events" ∷ "requests" ∷ "sends" ∷ [];
  document = shop_document;
  topic_specs = ("orders:create", []) ∷ [];
  previous_topic_specs = [];
  instances = [];
  reported_issues = false;
}

abbrev fleet : Collector
fleet = record {
  services = ("shop", shop) ∷ [];
  topics = "orders:create" ∷ "orders:placed" ∷ [];
  ever_consumed = "orders:create" ∷ [];
  events = [];
  span_owner = [];
  issues = [];
}

register_runs : ingest_register py digest shop_document empty ≡ (returned 1, fleet)
unfolding ingest_register require update_service reregister topic_specs_of topic_spec known_members
    spec_entries spec_topic_ids topic_of_entry is_reserved_topic schema_catalogue resolve_schema
    resolve_within resolve_value empty new_service get put truthy sorted_by insert_by
register_runs = refl

fleet-IsValid : IsValid fleet
unfolding get
fleet-IsValid = record { services_unique = (refl, tt); issues_unique = tt; bounded = tt }

abbrev stray : Json
stray = object (
    member "service" (text "shop") (
      member "topic" (text "orders:cancel")
        (member "status" (text "timeout") (member "traceId" (text "t1") end))))

abbrev traces : Dict String Json
traces = ("events", array (cons stray nil)) ∷ []

feeds_same_graph_example :
    let traced = (ingest_traces py digest traces fleet).1 in
    let beaten = (ingest_heartbeat py digest traces fleet).1 in
    let reported = (ingest_issues py digest traces fleet).1 in
    ((providers_of "orders:cancel" traced ≡ providers_of "orders:cancel" fleet)
      × (consumers_of "orders:cancel" traced ≡ consumers_of "orders:cancel" fleet))
    × ((providers_of "orders:cancel" beaten ≡ providers_of "orders:cancel" fleet)
        × (consumers_of "orders:cancel" beaten ≡ consumers_of "orders:cancel" fleet))
    × ((providers_of "orders:cancel" reported ≡ providers_of "orders:cancel" fleet)
        × (consumers_of "orders:cancel" reported ≡ consumers_of "orders:cancel" fleet))
feeds_same_graph_example = feeds_same_graph fleet py digest traces "orders:cancel"

-- a redeploy that handles cancellations only
abbrev smaller : Dict String Json
smaller = ("service", text "shop") ∷ ("requests", array (entry "orders:cancel" nil)) ∷ []

bank_is_other : ◌≢◌ {A = String} "bank" "shop"
bank_is_other same = ground (arith, text_key.same_iff "bank" "shop", same)

shop_named : (get "service" smaller ≡ some (text "shop")) × (truthy (text "shop") ≡ true)
unfolding get truthy
shop_named = (refl, refl)

ingest_register_replaces_example :
    let after' = ingest_register py digest smaller fleet in
    (after'.0 ≡ returned 1)
    × ((consumes "shop" "orders:create" after'.1 ≡ true)
        ↔ Declares str "requests" smaller "orders:create")
    × ((provides "shop" "orders:create" after'.1 ≡ true) ↔ (
        Declares str "events" smaller "orders:create"
        ⊎ Declares str "sends" smaller "orders:create"))
    × (consumes "bank" "orders:create" after'.1 ≡ consumes "bank" "orders:create" fleet)
    × (provides "bank" "orders:create" after'.1 ≡ provides "bank" "orders:create" fleet)
ingest_register_replaces_example =
    ingest_register_replaces py digest smaller (text "shop") fleet "bank" "orders:create"
      fleet-IsValid.services_unique shop_named.0 shop_named.1 bank_is_other

ingests_keep-IsValid_example :
    IsValid (ingest_register py digest traces fleet).1
    × IsValid (ingest_heartbeat py digest traces fleet).1
    × IsValid (ingest_traces py digest traces fleet).1
    × IsValid (ingest_issues py digest traces fleet).1
ingests_keep-IsValid_example = ingests_keep-IsValid py digest traces fleet fleet-IsValid

abbrev issue : Json → Json
issue n = object (
    member "fingerprint" (text "f")
      (member "count" n (member "exemplarTraceIds" (array (cons (text "t1") nil)) end)))

abbrev batch : List Json
batch = issue (integer 2) ∷ issue null ∷ issue (integer 3) ∷ []

batch_accepted : (merge_issues py digest batch 0 fleet).0 ≡ returned 3
unfolding merge_issues merge_issue iterate get put truthy safe_int first_issue update_issue
    latest_wins add_count add_exemplars merge_errors widen remove decode_issue_errors
    merge_issue_errors tally sorted_by
batch_accepted = refl

merge_issues_counts_example :
    recorded py (get "f" (merge_issues py digest batch 0 fleet).1.issues)
    ≡ recorded py (get "f" fleet.issues) +ℤ sum_of py "f" batch
merge_issues_counts_example = merge_issues_counts py int_ℤ digest "f" batch 0 3 fleet batch_accepted

abbrev stray_event : Event
stray_event = record {
  trace_id = "t1";
  span_id = "s1";
  parent_span_id = null;
  service = "shop";
  topic = "orders:cancel";
  status = "timeout";
  started_at = null;
  duration_ms = real true "0.0";
}

drift_runs :
    (undeclared shop "orders:cancel" ≡ true)
    × (undeclared shop "orders:create" ≡ false)
    × (undeclared shop "benzene:spec" ≡ false)
unfolding is_reserved_topic
drift_runs = (refl, refl, refl)

ingest_event_drift_example :
    let s = found_or_new "shop" (get "shop" fleet.services) in
    is_some (get "f" (ingest_event py digest stray_event fleet).1.issues) ≡ (
      is_some (get "f" fleet.issues)
      || (undeclared s "orders:cancel" && drift_fingerprint digest s "orders:cancel" == "f"))
ingest_event_drift_example = ingest_event_drift py digest int_ℤ stray_event fleet "f" refl

unnamed_is_rejected_example :
    (m : String) × (ingest_handler (ingest_register py digest) traces fleet
      ≡ (returned (Result.failed_with "bad-request" m), fleet))
    × (ingest_handler (ingest_heartbeat py digest) traces fleet
        ≡ (returned (Result.failed_with "bad-request" m), fleet))
    × (ingest_handler (ingest_issues py digest) traces fleet
        ≡ (returned (Result.failed_with "bad-request" m), fleet))
unfolding get
unnamed_is_rejected_example = unnamed_is_rejected py digest traces fleet tt

abbrev seen : Collector
seen = record fleet { events = stray_event ∷ record stray_event { status = "ok" } ∷ [] }

queries_run :
    (missing_feeds shop seen ≡ "health" ∷ "issues" ∷ [])
    × (query_trace py digest (λ s. s) (("traceId", text "t2") ∷ []) seen
        ≡ raised (error "CollectorNotFound" "No trace t2 in the catalog"))
unfolding missing_feeds is_successful query_trace has_failure require get truthy
queries_run = (refl, refl)

abbrev kept : Collector
kept = record seen { span_owner = ("s1", "shop") ∷ [] }

str-text : (s : String) → str (text s) ≡ s
str-text s = refl

kept-IsKept : IsKept py digest str-text refl kept
unfolding get from_pairs put duration_ms
kept-IsKept = record {
  services_unique = (refl, tt);
  services_named = ((refl, tt), tt);
  durations_read = (refl, (refl, tt));
  owners_indexed = refl;
}

restore-snapshot_example :
    restore py digest (snapshot kept) empty
    ≡ some (record kept {
      topics = sorted_by text_leb kept.topics;
      ever_consumed = sorted_by text_leb kept.ever_consumed;
    })
restore-snapshot_example = restore-snapshot py digest str-text refl kept empty kept-IsKept

ingest_saves :
    (ingest {S = ℕ} null_store (ingest_register py digest shop_document) (empty, 3)).0 ≡ returned 1
unfolding ingest persisted ingest_register require get truthy update_service
ingest_saves = refl

-- a person has a parent, who is a person, and an address
abbrev person : Json
person = object (
    member "parent" (object (member "$ref" (text "#/components/schemas/Person") end))
      (member "address" (object (member "$ref" (text "#/components/schemas/Address") end)) end))

abbrev address : Json
address = object (member "type" (text "string") end)

abbrev catalogue : Dict String Json
catalogue = ("Person", person) ∷ ("Address", address) ∷ []

abbrev reference : Json
reference = object (member "$ref" (text "#/components/schemas/Person") end)

resolve_runs :
    resolve_schema reference catalogue ≡ member "parent" (object end) (member "address" address end)
unfolding resolve_schema resolve_within resolve_value get
resolve_runs = refl

resolve_schema_ends_example :
    resolve_schema reference catalogue ≡ resolve_within 5 catalogue [] reference
resolve_schema_ends_example = resolve_schema_ends catalogue 5 reference (omega arith)

resolve_schema_closed_example : refers (object (resolve_schema reference catalogue)) ≡ false
resolve_schema_closed_example = resolve_schema_closed reference catalogue
