-- ===== src/Mesh/Collector.antt =====
-- packages/benzene-mesh/benzene/mesh/collector.py: the catalog of the collector. Sets are lists
-- without repetition. What is kept as it arrived is a JSON value, and null stands for None.
pub mod Python
pub mod Merge
pub mod Ingest
pub mod Frames
pub mod Graph
pub mod Registration
pub mod Bounded
pub mod Valid
pub mod Counts
pub mod Sums
pub mod Snapshot
pub mod Declared
pub mod Drift
pub mod Handlers
pub mod Queries
use benzene_python.Prelude.{
  ℕ, String, ◌⊕◌, ◌≡◌, Bool, true, false, Option, none, some, List, [], ◌∷◌, ◌++◌, select, map,
  if◌then◌else◌, contains, ◌==◌, text_key, sorted_by, text_leb,
}
use benzene_python.Effect.{
  Outcome, Coroutine, Fault, error, returned, raised, pure, look, change, ◌>>=◌, ◌>>◌,
}
use benzene_python.Dict.{Dict, get, put, keys}
use benzene_python.Json.{Json, null, truthy}

pub record Instance : Type 0 where
  pub healthy : Bool
  pub registration_hash : Json
  pub service_version : Option String
  pub health_checks : Dict String Json

pub record Service : Type 0 where
  pub name : String
  pub registered : Bool
  pub registration_hash : Option String
  pub previous_registration_hash : Option String
  pub consumed : List String
  pub produced : List String
  pub known : List String
  pub document : Dict String Json
  pub topic_specs : Dict String (Dict String Json)
  pub previous_topic_specs : Dict String (Dict String Json)
  pub instances : Dict String Instance
  pub reported_issues : Bool

-- `_Service(name)`
unfoldable pub new_service : String → Service
new_service name = record {
  name = name;
  registered = false;
  registration_hash = none;
  previous_registration_hash = none;
  consumed = [];
  produced = [];
  known = [];
  document = [];
  topic_specs = [];
  previous_topic_specs = [];
  instances = [];
  reported_issues = false;
}

pub record Event : Type 0 where
  pub trace_id : String
  pub span_id : String
  pub parent_span_id : Json
  pub service : String
  pub topic : String
  pub status : String
  pub started_at : Json
  pub duration_ms : Json

pub record Collector : Type 0 where
  pub services : Dict String Service
  pub topics : List String
  pub ever_consumed : List String
  pub events : List Event
  pub span_owner : Dict String String
  pub issues : Dict String (Dict String Json)

-- `__init__`, before a snapshot is restored
unfoldable pub empty : Collector
empty = record {
  services = [];
  topics = [];
  ever_consumed = [];
  events = [];
  span_owner = [];
  issues = [];
}

-- a method of the catalog: what it did before it raised stays done
abbrev pub Method : Type 0 → Type 0
Method A = Coroutine Collector A

-- `_service`: the record of a name, made where there is none
abbrev pub found_or_new : String → Option Service → Service
found_or_new name none = new_service name
found_or_new name (some record') = record'

unfoldable pub service_of : String → Method Service
service_of name c =
    let record' = found_or_new name (get name c.services) in
    (returned record', record c { services = put name record' c.services })

-- an update of the record of a name
unfoldable pub update_service : String → (Service → Service) → Method Unit
update_service name f =
    change (λ c. record c {
      services = put name (f (found_or_new name (get name c.services))) c.services;
    })

-- `set.add` and `set.update`
abbrev pub add : String → List String → List String
add x xs = if contains x xs then xs else xs ++ x ∷ []

abbrev pub add_all : List String → List String → List String
add_all [] xs = xs
add_all (y ∷ ys) xs = add_all ys (add y xs)

abbrev pub required : (Json → String) → String → Option Json → Outcome String
required str key none = raised (error "CollectorBadRequest" ("'" ⊕ key ⊕ "' is required"))
required str key (some v) =
    if truthy v
    then returned (str v)
    else raised (error "CollectorBadRequest" ("'" ⊕ key ⊕ "' is required"))

-- `_require`
unfoldable pub require : (Json → String) → Dict String Json → String → Outcome String
require str body key = required str key (get key body)

abbrev pub names_with : (Service → List String) → String → Dict String Service → List String
names_with role topic [] = []
names_with role topic ((name, s) ∷ rest) =
    if contains topic (role s)
    then name ∷ names_with role topic rest
    else names_with role topic rest

unfoldable pub providers_of : String → Collector → List String
providers_of topic c = sorted_by text_leb (names_with (λ s. s.produced) topic c.services)

unfoldable pub consumers_of : String → Collector → List String
consumers_of topic c = sorted_by text_leb (names_with (λ s. s.consumed) topic c.services)
