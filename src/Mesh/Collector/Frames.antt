-- ===== src/Mesh/Collector/Frames.antt =====
-- What every feed but a registration keeps, from what its steps keep.
use benzene_python.Prelude.{
  ℕ, String, ◌≡◌, refl, Bool, true, false, ◌&&◌, inl, inr, Option, none, some, List, [], ◌∷◌,
  if◌then◌else◌, contains, text_key, Bool-cases,
}
use benzene_python.Effect.{Outcome, lift, pure, look, change, ◌>>=◌, ◌>>◌}
use benzene_python.Effect.Keeps.{Keeps, Keeps-after, Keeps-bind, Keeps-seq}
use benzene_python.Dict.{Dict, get}
use benzene_python.Json.{members, array, nil, Json, object}
use benzene_python.Mesh.Collector.Python.{iterate, or_default, Python}
use benzene_python.Mesh.Collector.Merge.{merge_into, safe_int, store_issue, merge_issue}
use benzene_python.Mesh.Collector.{
  Service, Event, Collector, Method, service_of, update_service, require,
}
use benzene_python.Mesh.Collector.Ingest.{
  dict_or_empty, ingest_heartbeat, flag_drift, flag_callee, flag_known_caller, flag_caller,
  owner_of, note_event, event_of, ingest_event, ingest_raw, ingest_raws, ingest_traces,
  merge_identified, ingest_issue, merge_issues, ingest_issues, report_issues, values_of,
}

-- An update that leaves alone what the registration declared.
abbrev pub IsUndeclaring : (Service → Service) → Type 0
IsUndeclaring f = (s : Service) → ((f s).produced ≡ s.produced) × ((f s).consumed ≡ s.consumed)

-- A merge only stores an issue, if anything.
module _ (py : Python) (P : Collector → Type 0)
    (storing : (fp : String) (issue : Dict String Json) (c : Collector)
      → P c
      → P (store_issue py fp issue c)) where
  merge_into-Keeps :
      (fp : String) (issue : Dict String Json) (incoming : List Json)
      (o : Option (Dict String Json))
      → Keeps P (merge_into py fp issue incoming o)
  merge_into-Keeps fp issue incoming none c p =
      Keeps-after P (safe_int py _) c _ p (λ count c' p'. storing fp _ c' p')
  merge_into-Keeps fp issue incoming (some existing) c p = storing fp _ c p

  pub merge_issue-Keeps :
      (fp : String) (issue : Dict String Json) → Keeps P (merge_issue py fp issue)
  unfolding merge_issue
  merge_issue-Keeps fp issue =
      Keeps-bind P (lift (iterate (or_default (array nil) (get "exemplarTraceIds" issue)))) _
        (λ c p. p)
        (λ incoming.
          Keeps-bind P (look (λ c. get fp c.issues)) (merge_into py fp issue incoming) (λ c p. p)
            (merge_into-Keeps fp issue incoming))

module _ (py : Python) (digest : String → String) (P : Collector → Type 0)
    (merging : (fp : String) (issue : Dict String Json) → Keeps P (merge_issue py fp issue))
    (noting : (e : Event) (c : Collector) → P c → P (note_event py digest e c))
    (finding : (name : String) → Keeps P (service_of name))
    (updating : (name : String) (f : Service → Service)
      → IsUndeclaring f
      → Keeps P (update_service name f)) where
  Keeps-if : (b : Bool) (m : Method Unit) → Keeps P m → Keeps P (if b then pure tt else m)
  Keeps-if true m k c p = p
  Keeps-if false m k c p = k c p

  flag_drift-Keeps :
      (s : Service) (topic : String) (declared : List String) (trace_id : String)
      → Keeps P (flag_drift py digest s topic declared trace_id)
  unfolding flag_drift
  flag_drift-Keeps s topic declared trace_id = Keeps-if _ _ (merging _ _)

  flag_callee-Keeps : (e : Event) (s : Service) → Keeps P (flag_callee py digest e s)
  flag_callee-Keeps e s = elim (Bool-cases (contains "requests" s.known)) [
    | inl known ↦ rw known (flag_drift-Keeps s e.topic s.consumed e.trace_id)
    | inr unknown ↦ rw unknown (λ c p. p)
  ]

  flag_known_caller-Keeps :
      (e : Event) (o : Option Service) → Keeps P (flag_known_caller py digest e o)
  flag_known_caller-Keeps e none = λ c p. p
  flag_known_caller-Keeps e (some s) =
      elim (Bool-cases (contains "events" s.known && contains "sends" s.known)) [
        | inl known ↦ rw known (flag_drift-Keeps s e.topic s.produced e.trace_id)
        | inr unknown ↦ rw unknown (λ c p. p)
      ]

  flag_caller-Keeps : (e : Event) (o : Option String) → Keeps P (flag_caller py digest e o)
  flag_caller-Keeps e none = λ c p. p
  flag_caller-Keeps e (some name) = Keeps-if _ _ (
      Keeps-bind P (look (λ c. get name c.services)) (flag_known_caller py digest e) (λ c p. p)
        (flag_known_caller-Keeps e))

  ingest_event-Keeps : (e : Event) → Keeps P (ingest_event py digest e)
  unfolding ingest_event
  ingest_event-Keeps e =
      let noted : Method Unit = change (note_event py digest e) in
      let made : Method Service = noted >> service_of e.service in
      let flagged : Method Unit = made >>= flag_callee py digest e in
      let asked : Method (Outcome (Option String)) =
        look (λ c. owner_of py digest e.parent_span_id c.span_owner) in
      Keeps-bind P (flagged >> asked) (λ o. lift o >>= flag_caller py digest e)
        (Keeps-seq P flagged asked
          (Keeps-bind P made (flag_callee py digest e)
            (Keeps-seq P noted (service_of e.service) (noting e) (finding e.service))
            (flag_callee-Keeps e))
          (λ c p. p))
        (λ o. Keeps-bind P (lift o) (flag_caller py digest e) (λ c p. p) (flag_caller-Keeps e))

  ingest_raw-Keeps : (v : Json) → Keeps P (ingest_raw py digest v)
  ingest_raw-Keeps (object ms) =
      Keeps-bind P (lift (event_of py digest (members ms))) (ingest_event py digest) (λ c p. p)
        ingest_event-Keeps
  ingest_raw-Keeps v = λ c p. p

  ingest_raws-Keeps : (vs : List Json) → Keeps P (ingest_raws py digest vs)
  unfolding ingest_raws
  ingest_raws-Keeps [] = λ c p. p
  ingest_raws-Keeps (v ∷ vs) =
      Keeps-seq P (ingest_raw py digest v) (ingest_raws py digest vs) (ingest_raw-Keeps v)
        (ingest_raws-Keeps vs)

  pub ingest_traces-Keeps : (body : Dict String Json) → Keeps P (ingest_traces py digest body)
  unfolding ingest_traces
  ingest_traces-Keeps body =
      Keeps-bind P (lift (values_of py digest (get "events" body))) _ (λ c p. p)
        (λ events.
          Keeps-seq P (ingest_raws py digest events) _ (ingest_raws-Keeps events) (λ c p. p))

  pub ingest_heartbeat-Keeps : (body : Dict String Json) → Keeps P (ingest_heartbeat py digest body)
  unfolding ingest_heartbeat
  ingest_heartbeat-Keeps body =
      Keeps-bind P (lift (require py.str body "service")) _ (λ c p. p)
        (λ service. Keeps-bind P (service_of service) _ (finding service) (λ s.
          Keeps-bind P (lift (dict_or_empty py digest (get "health" body))) _ (λ c p. p)
            (λ health.
              Keeps-seq P (update_service service _) _ (updating service _ (λ r. (refl, refl)))
                (λ c p. p))))

  merge_identified-Keeps :
      (o : Option String) (issue : Dict String Json) (n : ℕ)
      → Keeps P (merge_identified py digest o issue n)
  merge_identified-Keeps none issue n = λ c p. p
  merge_identified-Keeps (some fp) issue n =
      Keeps-seq P (merge_issue py fp issue) _ (merging fp issue) (λ c p. p)

  ingest_issue-Keeps : (v : Json) (n : ℕ) → Keeps P (ingest_issue py digest v n)
  ingest_issue-Keeps (object ms) n = merge_identified-Keeps _ _ n
  ingest_issue-Keeps v n = λ c p. p

  merge_issues-Keeps : (vs : List Json) (n : ℕ) → Keeps P (merge_issues py digest vs n)
  unfolding merge_issues
  merge_issues-Keeps [] n = λ c p. p
  merge_issues-Keeps (v ∷ vs) n =
      Keeps-bind P (ingest_issue py digest v n) (merge_issues py digest vs) (ingest_issue-Keeps v n)
        (merge_issues-Keeps vs)

  pub ingest_issues-Keeps : (body : Dict String Json) → Keeps P (ingest_issues py digest body)
  unfolding ingest_issues
  ingest_issues-Keeps body =
      Keeps-bind P (lift (require py.str body "service")) _ (λ c p. p)
        (λ service.
          Keeps-bind P
            (update_service service (report_issues py digest)
              >> lift (values_of py digest (get "issues" body)))
            _
            (Keeps-seq P (update_service service (report_issues py digest)) _
              (updating service _ (λ r. (refl, refl))) (λ c p. p))
            (λ issues. merge_issues-Keeps issues 0))
