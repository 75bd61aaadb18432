-- ===== src/Mesh/Collector/Graph.antt =====
-- The declared graph: which feeds change it, and how.
use benzene_python.Prelude.{
  String, ◌≡◌, refl, ap, ◌∙◌, inl, inr, List, [], ◌∷◌, ◌==◌, text_key, sorted_by, text_leb,
  Bool-cases,
}
use benzene_python.Effect.Keeps.{Keeps}
use benzene_python.Dict.{Dict, get, put}
use benzene_python.Json.{Json}
use benzene_python.Mesh.Collector.Python.{Python}
use benzene_python.Mesh.Collector.Merge.{merge_issue}
use benzene_python.Mesh.Collector.{
  Service, Collector, new_service, found_or_new, service_of, update_service, names_with,
  providers_of, consumers_of,
}
use benzene_python.Mesh.Collector.Frames.{
  merge_issue-Keeps, ingest_traces-Keeps, ingest_heartbeat-Keeps, ingest_issues-Keeps,
}
use benzene_python.Mesh.Collector.Ingest.{ingest_heartbeat, ingest_traces, ingest_issues}

names_with-put :
    (role : Service → List String) (topic name : String) (s : Service) (d : Dict String Service)
    → role (new_service name) ≡ []
    → role s ≡ role (found_or_new name (get name d))
    → names_with role topic (put name s d) ≡ names_with role topic d
unfolding get put
names_with-put role topic name s [] new same = rw (same, new) refl
names_with-put role topic name s ((n, r) ∷ d) new same = elim (Bool-cases (n == name)) [
  | inl here ↦ let s_r : role s ≡ role r = rw here at same in rw (here, s_r) refl
  | inr other ↦
      let kept : role s ≡ role (found_or_new name (get name d)) = rw other at same in
      rw (other, names_with-put role topic name s d new kept) refl
]

-- The declared edges of a catalog: for each topic the services on either side of it.
abbrev pub SameGraph : Collector → Collector → Type 0
SameGraph c c' =
    (topic : String)
    → (names_with (λ s. s.produced) topic c'.services
        ≡ names_with (λ s. s.produced) topic c.services)
      × (names_with (λ s. s.consumed) topic c'.services
          ≡ names_with (λ s. s.consumed) topic c.services)

module _ (c₀ : Collector) where
  SameGraph-put :
      (name : String) (s : Service) (c : Collector)
      → s.produced ≡ (found_or_new name (get name c.services)).produced
      → s.consumed ≡ (found_or_new name (get name c.services)).consumed
      → SameGraph c₀ c
      → SameGraph c₀ (record c { services = put name s c.services })
  SameGraph-put name s c p q h topic = (
    names_with-put (λ r. r.produced) topic name s c.services (unfold new_service in refl) p
        ∙ (h topic).0,
    names_with-put (λ r. r.consumed) topic name s c.services (unfold new_service in refl) q
        ∙ (h topic).1,
  )

  service_of-SameGraph : (name : String) → Keeps (SameGraph c₀) (service_of name)
  unfolding service_of
  service_of-SameGraph name c h =
      SameGraph-put name (found_or_new name (get name c.services)) c refl refl h

  update_service-SameGraph :
      (name : String) (f : Service → Service)
      → ((s : Service) → ((f s).produced ≡ s.produced) × ((f s).consumed ≡ s.consumed))
      → Keeps (SameGraph c₀) (update_service name f)
  unfolding update_service
  update_service-SameGraph name f same c h =
      let s = found_or_new name (get name c.services) in
      SameGraph-put name (f s) c (same s).0 (same s).1 h

  module _ (py : Python) (digest : String → String) where
    merge_issue-SameGraph :
        (fp : String) (issue : Dict String Json) → Keeps (SameGraph c₀) (merge_issue py fp issue)
    merge_issue-SameGraph = merge_issue-Keeps py (SameGraph c₀) (λ fp issue c p. p)

    -- Traces, heartbeats and issues leave the declared graph as it is: whatever their body, and
    -- whether they are accepted or raise, every topic has the providers and the consumers it had.
    pub feeds_same_graph :
        (body : Dict String Json) (topic : String)
        → let traced = (ingest_traces py digest body c₀).1 in
          let beaten = (ingest_heartbeat py digest body c₀).1 in
          let reported = (ingest_issues py digest body c₀).1 in
          ((providers_of topic traced ≡ providers_of topic c₀)
            × (consumers_of topic traced ≡ consumers_of topic c₀))
          × ((providers_of topic beaten ≡ providers_of topic c₀)
              × (consumers_of topic beaten ≡ consumers_of topic c₀))
          × ((providers_of topic reported ≡ providers_of topic c₀)
              × (consumers_of topic reported ≡ consumers_of topic c₀))
    unfolding providers_of consumers_of
    feeds_same_graph body topic =
        let start : SameGraph c₀ c₀ = λ t. (refl, refl) in
        let t =
          ingest_traces-Keeps py digest (SameGraph c₀) merge_issue-SameGraph (λ e c p. p)
            service_of-SameGraph update_service-SameGraph body c₀ start topic in
        let h =
          ingest_heartbeat-Keeps py digest (SameGraph c₀) merge_issue-SameGraph (λ e c p. p)
            service_of-SameGraph update_service-SameGraph body c₀ start topic in
        let i =
          ingest_issues-Keeps py digest (SameGraph c₀) merge_issue-SameGraph (λ e c p. p)
            service_of-SameGraph update_service-SameGraph body c₀ start topic in
        let sorted = sorted_by text_leb in
        (
          (ap sorted t.0, ap sorted t.1),
          (ap sorted h.0, ap sorted h.1),
          (ap sorted i.0, ap sorted i.1),
        )
