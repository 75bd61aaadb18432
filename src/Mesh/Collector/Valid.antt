-- ===== src/Mesh/Collector/Valid.antt =====
-- What holds of the catalog after every ingest.
use benzene_python.Prelude.{String, ◌≡◌, refl, Option, none, some, List, text_key, All}
use benzene_python.Effect.{lift, pure, look, change, ◌>>=◌, ◌>>◌}
use benzene_python.Effect.Keeps.{Keeps, Keeps-after, Keeps-bind, Keeps-seq}
use benzene_python.Dict.{Dict, get, put}
use benzene_python.Dict.Laws.{put-All}
use benzene_python.Dict.Members.{get-All}
use benzene_python.Dict.Unique.{Unique, Unique-put}
use benzene_python.Json.{integer, Json, array, nil}
use benzene_python.Mesh.Collector.Python.{Python, or_default, iterate}
use benzene_python.Mesh.Collector.Merge.{
  first_issue, safe_int, store_issue, merge_into, merge_issue,
}
use benzene_python.Mesh.Collector.Ingest.{
  note_event, reregister, remember_topics, ingest_register, ingest_heartbeat, ingest_traces,
  ingest_issues,
}
use benzene_python.Mesh.Collector.Frames.{
  ingest_heartbeat-Keeps, ingest_traces-Keeps, ingest_issues-Keeps,
}
use benzene_python.Mesh.Collector.{
  Service, Event, service_of, update_service, require, Collector, Method,
}
use benzene_python.Mesh.Collector.Bounded.{Bounded, first_issue-Bounded, update_issue-Bounded}

-- What holds of the catalog between ingests.
pub record IsValid (c : Collector) : Type 0 where
  pub services_unique : Unique c.services
  pub issues_unique : Unique c.issues
  pub bounded : All (λ (p : String × Dict String Json). Bounded p.1) c.issues

module _ (py : Python) (digest : String → String) where
  store_issue-IsValid :
      (fp : String) (issue : Dict String Json) (c : Collector)
      → Bounded issue
      → IsValid c
      → IsValid (store_issue py fp issue c)
  store_issue-IsValid fp issue c b v = record {
    services_unique = v.services_unique;
    issues_unique = Unique-put fp issue c.issues v.issues_unique;
    bounded =
        put-All (λ (p : String × Dict String Json). Bounded p.1) fp issue c.issues b v.bounded;
  }

  merge_into-IsValid :
      (fp : String) (issue : Dict String Json) (incoming : List Json) (c : Collector)
      → IsValid c
      → (o : Option (Dict String Json)) → get fp c.issues ≡ o
      → IsValid (merge_into py fp issue incoming o c).1
  merge_into-IsValid fp issue incoming c v none found =
      Keeps-after IsValid (safe_int py (or_default (integer 0) (get "count" issue))) c
        (λ z. change (store_issue py fp (first_issue py issue incoming z))) v
        (λ z c' v'. store_issue-IsValid fp _ c' (first_issue-Bounded py issue incoming z) v')
  merge_into-IsValid fp issue incoming c v (some existing) found =
      let b = get-All (λ k i. Bounded i) fp c.issues v.bounded found in
      store_issue-IsValid fp _ c (update_issue-Bounded py issue incoming existing b) v

  merge_issue-IsValid :
      (fp : String) (issue : Dict String Json) → Keeps IsValid (merge_issue py fp issue)
  unfolding merge_issue
  merge_issue-IsValid fp issue =
      let last : List Json → Method Unit =
        λ incoming. look (λ c. get fp c.issues) >>= merge_into py fp issue incoming in
      Keeps-bind IsValid (lift (iterate (or_default (array nil) (get "exemplarTraceIds" issue))))
        last (λ c v. v)
        (λ incoming c v. merge_into-IsValid fp issue incoming c v (get fp c.issues) refl)

  put_service-IsValid :
      (name : String) (s : Service) (c : Collector)
      → IsValid c
      → IsValid (record c { services = put name s c.services })
  put_service-IsValid name s c v = record {
    services_unique = Unique-put name s c.services v.services_unique;
    issues_unique = v.issues_unique;
    bounded = v.bounded;
  }

  service_of-IsValid : (name : String) → Keeps IsValid (service_of name)
  unfolding service_of
  service_of-IsValid name c v = put_service-IsValid name _ c v

  update_service-IsValid :
      (name : String) (f : Service → Service) → Keeps IsValid (update_service name f)
  unfolding update_service
  update_service-IsValid name f c v = put_service-IsValid name _ c v

  noted-IsValid : (e : Event) (c : Collector) → IsValid c → IsValid (note_event py digest e c)
  noted-IsValid e c v = record {
    services_unique = v.services_unique;
    issues_unique = v.issues_unique;
    bounded = v.bounded;
  }

  ingest_register-IsValid :
      (body : Dict String Json) → Keeps IsValid (ingest_register py digest body)
  unfolding ingest_register
  ingest_register-IsValid body =
      let registered : String → Method Unit = λ name.
        update_service name (reregister py digest body)
        >> change (remember_topics py digest body) in
      Keeps-bind IsValid (lift (require py.str body "service")) (λ name. registered name >> pure 1)
        (λ c v. v)
        (λ name.
          Keeps-seq IsValid (registered name) (pure 1)
            (Keeps-seq IsValid (update_service name (reregister py digest body))
              (change (remember_topics py digest body)) (update_service-IsValid name _)
              (λ c v. record {
                services_unique = v.services_unique;
                issues_unique = v.issues_unique;
                bounded = v.bounded;
              }))
            (λ c v. v))

  -- Whatever the bodies, and whether they are accepted or raise midway, the four ingests leave a
  -- catalog with one record for each service and one issue for each fingerprint, each issue with at
  -- most three exemplars and at most ten entries of error detail.
  pub ingests_keep-IsValid :
      (body : Dict String Json) (c : Collector)
      → IsValid c
      → IsValid (ingest_register py digest body c).1
        × IsValid (ingest_heartbeat py digest body c).1
        × IsValid (ingest_traces py digest body c).1
        × IsValid (ingest_issues py digest body c).1
  ingests_keep-IsValid body c v = (
    ingest_register-IsValid body c v,
    ingest_heartbeat-Keeps py digest IsValid merge_issue-IsValid noted-IsValid service_of-IsValid
        (λ name f undeclaring. update_service-IsValid name f) body c v,
    ingest_traces-Keeps py digest IsValid merge_issue-IsValid noted-IsValid service_of-IsValid
        (λ name f undeclaring. update_service-IsValid name f) body c v,
    ingest_issues-Keeps py digest IsValid merge_issue-IsValid noted-IsValid service_of-IsValid
        (λ name f undeclaring. update_service-IsValid name f) body c v,
  )
