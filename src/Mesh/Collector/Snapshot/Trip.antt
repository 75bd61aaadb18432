-- ===== src/Mesh/Collector/Snapshot/Trip.antt =====
-- A snapshot read back.
use benzene_python.Prelude.{
  String, ◌≡◌, refl, ap, true, Option, none, some, List, [], ◌∷◌, map, text_key, sorted_by,
  text_leb, All,
}
use benzene_python.Effect.{returned}
use benzene_python.Dict.{Dict, get, from_pairs}
use benzene_python.Dict.Unique.{Unique, from_pairs-Unique}
use benzene_python.Json.{Json, integer, text, items, to_items, members, to_members, truthy}
use benzene_python.Mesh.Aggregator.{text_items}
use benzene_python.Mesh.Collector.Python.{Python}
use benzene_python.Mesh.Collector.Ingest.{duration_ms, event_of}
use benzene_python.Mesh.Collector.Bounded.{items-to_items}
use benzene_python.Mesh.Collector.{Instance, Service, Event, Collector}
use benzene_python.Mesh.Collector.Snapshot.{
  text_or_null, dict_json, instance_json, service_json, event_json, snapshot, read_all, read_text,
  hash_of, dict_entry, read_instance, read_service, read_event, by_name, owner_entry, restore,
}

members-to_members : (d : Dict String Json) → members (to_members d) ≡ d
members-to_members [] = refl
members-to_members ((k, v) ∷ d) = ap (λ (ms : Dict String Json). (k, v) ∷ ms) (members-to_members d)

read_texts : (ss : List String) → read_all read_text (items (text_items ss)) ≡ some ss
read_texts [] = refl
read_texts (s ∷ ss) = rw (read_texts ss) refl

abbrev named_json : String × Dict String Json → String × Json
named_json p = (p.0, dict_json p.1)

read_entries :
    (d : Dict String (Dict String Json)) → read_all dict_entry (map named_json d) ≡ some d
read_entries [] = refl
read_entries ((k, v) ∷ d) = rw (read_entries d, members-to_members v) refl

read_dicts :
    (d : Dict String (Dict String Json))
    → read_all dict_entry (members (to_members (map named_json d))) ≡ some d
read_dicts d = rw (members-to_members (map named_json d)) (read_entries d)

hash_of-text_or_null : (o : Option String) → hash_of (some (text_or_null o)) ≡ some o
hash_of-text_or_null none = refl
hash_of-text_or_null (some s) = refl

-- Every element is read back from what is written for it.
read_written :
    {A : Type 0} (write : A → Json) (read : Json → Option A) (as' : List A)
    → All (λ a. read (write a) ≡ some a) as'
    → read_all read (items (to_items (map write as'))) ≡ some as'
read_written {A} write read as' h = rw (items-to_items (map write as')) (go as' h)
  where
    go :
        (bs : List A)
        → All (λ a. read (write a) ≡ some a) bs
        → read_all read (map write bs) ≡ some bs
    go [] h = refl
    go (b ∷ bs) h = rw (h.0, go bs h.1) refl

module _ (py : Python) (digest : String → String) (str_text : (s : String) → py.str (text s) ≡ s)
    (same_version : py.equal (integer 4) (integer 4) ≡ true) where
  read_instance-instance_json :
      (p : String × Instance) → read_instance py digest (instance_json p) ≡ some p
  unfolding read_instance get truthy
  read_instance-instance_json p =
      rw
        (
          hash_of-text_or_null (p.1.service_version),
          members-to_members (p.1.health_checks),
          str_text (p.0),
        )
        refl

  read_instances :
      (is : Dict String Instance)
      → read_all (read_instance py digest) (items (to_items (map instance_json is))) ≡ some is
  read_instances is = read_written instance_json (read_instance py digest) is (go is)
    where
      go :
          (js : Dict String Instance)
          → All (λ p. read_instance py digest (instance_json p) ≡ some p) js
      go [] = tt
      go (j ∷ js) = (read_instance-instance_json j, go js)

  read_service-service_json :
      (s : Service) → Unique s.instances → read_service py digest (service_json s) ≡ some s
  unfolding read_service get truthy
  read_service-service_json s u =
      rw
        (
          hash_of-text_or_null s.registration_hash,
          hash_of-text_or_null s.previous_registration_hash,
          read_texts s.consumed,
          read_texts s.produced,
          read_texts s.known,
          members-to_members s.document,
          read_dicts s.topic_specs,
          read_dicts s.previous_topic_specs,
          read_instances s.instances,
          str_text s.name,
          from_pairs-Unique s.instances u,
        )
        refl

  read_event-event_json :
      (e : Event)
      → duration_ms py digest e.duration_ms ≡ returned e.duration_ms
      → read_event py digest (event_json e) ≡ some e
  unfolding event_of get
  read_event-event_json e h =
      rw
        (
          h,
          str_text e.trace_id,
          str_text e.span_id,
          str_text e.service,
          str_text e.topic,
          str_text e.status,
        )
        refl

  -- The assumptions on a catalog under which its snapshot says all of it but the order of its sets.
  pub record IsKept (c : Collector) : Type 0 where
    pub services_unique : Unique c.services
    pub services_named :
        All (λ (p : String × Service). (p.0 ≡ p.1.name) × Unique p.1.instances) c.services
    pub durations_read :
        All (λ (e : Event). duration_ms py digest e.duration_ms ≡ returned e.duration_ms) c.events
    pub owners_indexed : from_pairs (map (owner_entry py digest) c.events) [] ≡ c.span_owner

  abbrev written : String × Service → Json
  written p = service_json (p.1)

  read_services :
      (d : Dict String Service)
      → All (λ (p : String × Service). (p.0 ≡ p.1.name) × Unique p.1.instances) d
      → read_all (read_service py digest) (items (to_items (map written d)))
        ≡ some (map (λ (p : String × Service). p.1) d)
  read_services d h = rw (items-to_items (map written d)) (go d h)
    where
      go :
          (d : Dict String Service)
          → All (λ (p : String × Service). (p.0 ≡ p.1.name) × Unique p.1.instances) d
          → read_all (read_service py digest) (map written d)
            ≡ some (map (λ (p : String × Service). p.1) d)
      go [] h = refl
      go (p ∷ d) h = rw (read_service-service_json (p.1) h.0.1, go d h.1) refl

  renamed :
      (d : Dict String Service)
      → All (λ (p : String × Service). (p.0 ≡ p.1.name) × Unique p.1.instances) d
      → map (by_name py digest) (map (λ (p : String × Service). p.1) d) ≡ d
  renamed [] h = refl
  renamed ((k, s) ∷ d) h = rw (renamed d h.1, h.0.0) refl

  read_events :
      (es : List Event)
      → All (λ (e : Event). duration_ms py digest e.duration_ms ≡ returned e.duration_ms) es
      → read_all (read_event py digest) (items (to_items (map event_json es))) ≡ some es
  read_events es h = read_written event_json (read_event py digest) es (go es h)
    where
      go :
          (fs : List Event)
          → All (λ (e : Event). duration_ms py digest e.duration_ms ≡ returned e.duration_ms) fs
          → All (λ e. read_event py digest (event_json e) ≡ some e) fs
      go [] h = tt
      go (f ∷ fs) h = (read_event-event_json f h.0, go fs h.1)

  -- A collector that restores the snapshot of another holds the same catalog, with its two sets in
  -- order: the same services, events, issues and owners of spans. Of the catalog it is assumed that
  -- each service stands once and under its name, that each of its instances stands once, that the
  -- durations are such as are read back, and that the owners of spans are those of the events.
  pub restore-snapshot :
      (c other : Collector)
      → IsKept c
      → restore py digest (snapshot c) other
        ≡ some (record c {
          topics = sorted_by text_leb c.topics;
          ever_consumed = sorted_by text_leb c.ever_consumed;
        })
  unfolding restore snapshot get
  restore-snapshot c other k =
      rw
        (
          same_version,
          read_services c.services k.services_named,
          read_texts (sorted_by text_leb c.topics),
          read_texts (sorted_by text_leb c.ever_consumed),
          read_events c.events k.durations_read,
          read_dicts c.issues,
          renamed c.services k.services_named,
          from_pairs-Unique c.services k.services_unique,
          k.owners_indexed,
        )
        refl
