-- ===== src/Mesh/Collector/Handlers.antt =====
-- The collector's methods as handlers: `_ingest_handler` and `_query_handler`.
use benzene_python.Prelude.{
  ◌⊕◌, String, ◌≡◌, refl, false, Option, none, some, if◌then◌else◌, ◌==◌, text_key,
}
use benzene_python.Effect.{Outcome, error, cancelled, returned, raised}
use benzene_python.Dict.{Dict, get}
use benzene_python.Json.{Json, truthy}
use benzene_python.Results.Result
use benzene_python.Results.Result.{Result}
use benzene_python.Mesh.Collector.Python.{Python}
use benzene_python.Mesh.Collector.{Collector, Method, require, required}
use benzene_python.Mesh.Collector.Ingest.{ingest_register, ingest_heartbeat, ingest_issues}

module _ {A : Type 0} where
  abbrev pub ingest_answer : Outcome A → Outcome (Result A)
  ingest_answer (returned a) = returned (Result.ok (some a))
  ingest_answer (raised (error name message)) =
      if name == "CollectorBadRequest"
      then returned (Result.failed_with "bad-request" message)
      else raised (error name message)
  ingest_answer (raised cancelled) = raised cancelled

  unfoldable pub ingest_handler :
      (Dict String Json → Method A) → Dict String Json → Method (Result A)
  ingest_handler method request c = let (o, c') = method request c in (ingest_answer o, c')

  abbrev pub query_answer : Outcome A → Outcome (Result A)
  query_answer (returned a) = returned (Result.ok (some a))
  query_answer (raised (error name message)) =
      if name == "CollectorBadRequest"
      then returned (Result.failed_with "bad-request" message)
      else if name == "CollectorNotFound"
      then returned (Result.failed_with "not-found" message)
      else raised (error name message)
  query_answer (raised cancelled) = raised cancelled

  unfoldable pub query_handler :
      (Dict String Json → Collector → Outcome A) → Dict String Json → Method (Result A)
  query_handler method request c = (query_answer (method request c), c)

-- the value is absent, or false as Python has it
abbrev pub IsMissing : Option Json → Type 0
IsMissing none = Unit
IsMissing (some v) = truthy v ≡ false

required-missing :
    (str : Json → String) (key : String) (o : Option Json)
    → IsMissing o
    → (m : String) × (required str key o ≡ raised (error "CollectorBadRequest" m))
required-missing str key none h = (_, refl)
required-missing str key (some v) h = ("'" ⊕ key ⊕ "' is required", rw h refl)

module _ (py : Python) (digest : String → String) where
  missing :
      (body : Dict String Json) (key : String)
      → IsMissing (get key body)
      → (m : String) × (require py.str body key ≡ raised (error "CollectorBadRequest" m))
  unfolding require
  missing body key h = required-missing py.str key (get key body) h

  -- A registration, a heartbeat or a batch of issues that does not name its service is answered
  -- with bad-request, and leaves the catalog as it is.
  pub unnamed_is_rejected :
      (body : Dict String Json) (c : Collector)
      → IsMissing (get "service" body)
      → (m : String) × (ingest_handler (ingest_register py digest) body c
          ≡ (returned (Result.failed_with "bad-request" m), c))
        × (ingest_handler (ingest_heartbeat py digest) body c
            ≡ (returned (Result.failed_with "bad-request" m), c))
        × (ingest_handler (ingest_issues py digest) body c
            ≡ (returned (Result.failed_with "bad-request" m), c))
  unfolding ingest_handler ingest_register ingest_heartbeat ingest_issues
  unnamed_is_rejected body c h =
      let (m, rejected) = missing body "service" h in
      (m, rw rejected refl, rw rejected refl, rw rejected refl)
