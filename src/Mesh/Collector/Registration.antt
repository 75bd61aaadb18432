-- ===== src/Mesh/Collector/Registration.antt =====
-- What a registration does to the declared graph.
use benzene_python.Prelude.{
  ◌⊎◌, ◌↔◌, String, ◌≡◌, ◌≢◌, refl, sym, ap, ◌∙◌, inl, inr, Bool, true, false, Option, none, some,
  List, [], ◌∷◌, arith, if◌then◌else◌, contains, ◌==◌, text_key, same_refl, sorted_by, insert_by,
  text_leb, Bool-cases,
}
use benzene_python.Effect.{returned}
use benzene_python.Dict.{Dict, get, put}
use benzene_python.Dict.Laws.{get-put}
use benzene_python.Dict.Unique.{Unique, Unique-put}
use benzene_python.Json.{Json, truthy}
use benzene_python.Mesh.Collector.Python.{Python}
use benzene_python.Mesh.Collector.Declared.{Declares, spec_topic_ids_one, spec_topic_ids_two}
use benzene_python.Mesh.Collector.{
  Service, Collector, found_or_new, update_service, require, names_with, providers_of, consumers_of,
}
use benzene_python.Mesh.Collector.Ingest.{reregister, ingest_register, remember_topics}

contains-insert_by :
    (before : String → String → Bool) (x y : String) (xs : List String)
    → contains x (insert_by before y xs) ≡ (if y == x then true else contains x xs)
unfolding insert_by
contains-insert_by before x y [] = refl
contains-insert_by before x y (z ∷ zs) = ground (arith, contains-insert_by before x y zs)

contains-sorted_by :
    (before : String → String → Bool) (x : String) (xs : List String)
    → contains x (sorted_by before xs) ≡ contains x xs
unfolding sorted_by
contains-sorted_by before x [] = refl
contains-sorted_by before x (y ∷ ys) =
    contains-insert_by before x y (sorted_by before ys) ∙ rw (contains-sorted_by before x ys) refl

-- a service that is there has the topic in the role
abbrev pub plays : (Service → List String) → String → Option Service → Bool
plays role topic none = false
plays role topic (some s) = contains topic (role s)

contains-names_with :
    (role : Service → List String) (topic name : String) (d : Dict String Service)
    → Unique d
    → contains name (names_with role topic d) ≡ plays role topic (get name d)
unfolding get
contains-names_with role topic name [] u = refl
contains-names_with role topic name ((n, s) ∷ d) u = elim (Bool-cases (n == name)) [
  | inl here ↦
      let gone : get name d ≡ none = rw (← (text_key.same_iff n name).0 here) u.0 in
      let rest : contains name (names_with role topic d) ≡ false =
        contains-names_with role topic name d u.1 ∙ ap (plays role topic) gone in
      elim (Bool-cases (contains topic (role s))) [
        | inl in' ↦ rw (in', here, in') refl
        | inr out ↦ rw (out, here, out) rest
      ]
  | inr other ↦ elim (Bool-cases (contains topic (role s))) [
    | inl in' ↦ rw (in', other) (contains-names_with role topic name d u.1)
    | inr out ↦ rw (out, other) (contains-names_with role topic name d u.1)
  ]
]

-- a service is among the providers, or the consumers, of a topic
abbrev pub provides : String → String → Collector → Bool
provides name topic c = contains name (providers_of topic c)

abbrev pub consumes : String → String → Collector → Bool
consumes name topic c = contains name (consumers_of topic c)

provides_lem :
    (name topic : String) (c : Collector)
    → Unique c.services
    → provides name topic c ≡ plays (λ s. s.produced) topic (get name c.services)
unfolding providers_of
provides_lem name topic c u =
    contains-sorted_by text_leb name (names_with (λ s. s.produced) topic c.services)
    ∙ contains-names_with (λ s. s.produced) topic name c.services u

consumes_lem :
    (name topic : String) (c : Collector)
    → Unique c.services
    → consumes name topic c ≡ plays (λ s. s.consumed) topic (get name c.services)
unfolding consumers_of
consumes_lem name topic c u =
    contains-sorted_by text_leb name (names_with (λ s. s.consumed) topic c.services)
    ∙ contains-names_with (λ s. s.consumed) topic name c.services u

module _ (py : Python) (digest : String → String) where
  registered_catalog : String → Dict String Json → Collector → Collector
  registered_catalog name body c = remember_topics py digest body (record c {
    services =
        put name (reregister py digest body (found_or_new name (get name c.services))) c.services;
  })

  ingest_register-found :
      (body : Dict String Json) (v : Json) (c : Collector)
      → get "service" body ≡ some v
      → truthy v ≡ true
      → ingest_register py digest body c ≡ (returned 1, registered_catalog (py.str v) body c)
  unfolding ingest_register require update_service registered_catalog
  ingest_register-found body v c found given = rw (found, given) refl

  pub ingest_register_replaces :
      (body : Dict String Json) (v : Json) (c : Collector) (other topic : String)
      → Unique c.services
      → get "service" body ≡ some v
      → truthy v ≡ true
      → other ≢ py.str v
      → let after' = ingest_register py digest body c in
        (after'.0 ≡ returned 1)
        × ((consumes (py.str v) topic after'.1 ≡ true) ↔ Declares py.str "requests" body topic)
        × ((provides (py.str v) topic after'.1 ≡ true)
            ↔ (Declares py.str "events" body topic ⊎ Declares py.str "sends" body topic))
        × (consumes other topic after'.1 ≡ consumes other topic c)
        × (provides other topic after'.1 ≡ provides other topic c)
  unfolding registered_catalog reregister
  ingest_register_replaces body v c other topic u found given apart =
      let name = py.str v in
      let s = reregister py digest body (found_or_new name (get name c.services)) in
      let u' = Unique-put name s c.services u in
      let after' = registered_catalog name body c in
      let self : get name (put name s c.services) ≡ some s =
        ground (arith, get-put name name s c.services, same_refl name) in
      let else' : get other (put name s c.services) ≡ get other c.services =
        ground (arith, get-put name other s c.services, text_key.same_iff name other) in
      rw (ingest_register-found body v c found given) (
        refl,
        rw (consumes_lem name topic after' u' ∙ ap (plays (λ r. r.consumed) topic) self)
            (spec_topic_ids_one py.str body "requests" topic),
        rw (provides_lem name topic after' u' ∙ ap (plays (λ r. r.produced) topic) self)
            (spec_topic_ids_two py.str body "events" "sends" topic),
        (consumes_lem other topic after' u'
            ∙ ap (plays (λ r. r.consumed) topic) else'
            ∙ sym (consumes_lem other topic c u)),
        (provides_lem other topic after' u'
            ∙ ap (plays (λ r. r.produced) topic) else'
            ∙ sym (provides_lem other topic c u)),
      )
