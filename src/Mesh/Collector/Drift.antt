-- ===== src/Mesh/Collector/Drift.antt =====
-- The issues that a traced event files.
use benzene_python.Prelude.{
  ℤ, pos, String, ◌≡◌, refl, ap, ◌∙◌, inl, inr, Bool, true, false, not, ◌||◌, ◌&&◌, Option, none,
  some, List, if◌then◌else◌, is_some, contains, ◌==◌, text_key, Bool-cases,
}
use benzene_python.Effect.{Outcome, returned, raised, lift, after, look, ◌>>=◌}
use benzene_python.Dict.{Dict, get, put}
use benzene_python.Dict.Laws.{get-put}
use benzene_python.Json.{Json, null, nil, cons, text, items}
use benzene_python.Mesh.Issues.{issue_fingerprint}
use benzene_python.Mesh.Specdoc.{is_reserved_topic}
use benzene_python.Mesh.Collector.Python.{Python, from_ℤ, iterate}
use benzene_python.Mesh.Collector.Merge.{safe_int, merge_into, merge_issue}
use benzene_python.Mesh.Collector.{Service, Event, Collector, found_or_new, service_of}
use benzene_python.Mesh.Collector.Ingest.{
  drift_issue, flag_drift, flag_callee, flag_caller, owner_of, note_event, ingest_event,
}

is_some-put :
    (fp k : String) (issue : Dict String Json) (d : Dict String (Dict String Json))
    → is_some (get k (put fp issue d)) ≡ (is_some (get k d) || fp == k)
is_some-put fp k issue d = rw (get-put fp k issue d) (go (fp == k) (get k d))
  where
    go :
        (b : Bool) (o : Option (Dict String Json))
        → is_some (if b then some issue else o) ≡ (is_some o || b)
    go true none = refl
    go true (some i) = refl
    go false none = refl
    go false (some i) = refl

or_false : (b : Bool) → b ≡ (b || false)
or_false true = refl
or_false false = refl

-- the guard of the code, and its negation
unguarded : (a b c : Bool) → (a && (not b && not c)) ≡ not (not a || b || c)
unguarded true true c = refl
unguarded true false true = refl
unguarded true false false = refl
unguarded false b c = refl

-- the service has declared its handlers, and not this one
abbrev pub undeclared : Service → String → Bool
undeclared s topic =
    contains "requests" s.known
    && (s.registered && (not (contains topic s.consumed) && not (is_reserved_topic topic)))

abbrev pub drift_fingerprint : (String → String) → Service → String → String
drift_fingerprint digest s topic =
    issue_fingerprint digest s.name topic "" "contract-drift" "undeclared-edge"

module _ (py : Python) (digest : String → String)
    (int_ℤ : (z : ℤ) → py.int (from_ℤ z) ≡ returned z) where
  filed :
      (fp k service topic trace_id : String) (c : Collector)
      → is_some
          (get k (merge_issue py fp (drift_issue py digest fp service topic trace_id) c).1.issues)
        ≡ (is_some (get k c.issues) || fp == k)
  unfolding merge_issue iterate safe_int get
  filed fp k service topic trace_id c = go (get fp c.issues) refl
    where
      issue : Dict String Json
      issue = drift_issue py digest fp service topic trace_id

      exemplars : List Json
      exemplars = items (if trace_id == "" then nil else cons (text trace_id) nil)

      go :
          (o : Option (Dict String Json))
          → get fp c.issues ≡ o
          → is_some (get k (merge_into py fp issue exemplars (get fp c.issues) c).1.issues)
            ≡ (is_some (get k c.issues) || fp == k)
      go none absent = rw (absent, int_ℤ (pos 1)) (is_some-put fp k _ c.issues)
      go (some existing) found = rw found (is_some-put fp k _ c.issues)

  flag_callee-issues :
      (e : Event) (s : Service) (k : String) (c : Collector)
      → is_some (get k (flag_callee py digest e s c).1.issues) ≡ (
          is_some (get k c.issues)
          || (undeclared s e.topic && drift_fingerprint digest s e.topic == k))
  unfolding flag_drift
  flag_callee-issues e s k c = elim (Bool-cases (contains "requests" s.known)) [
    | inr unknown ↦ rw unknown (or_false (is_some (get k c.issues)))
    | inl known ↦
        let guard = not s.registered || contains e.topic s.consumed || is_reserved_topic e.topic in
        elim (Bool-cases guard) [
          | inl quiet ↦
              rw
                (
                  known,
                  unguarded s.registered (contains e.topic s.consumed) (is_reserved_topic e.topic),
                  quiet,
                )
                (or_false (is_some (get k c.issues)))
          | inr loud ↦
              rw
                (
                  known,
                  unguarded s.registered (contains e.topic s.consumed) (is_reserved_topic e.topic),
                  loud,
                )
                (filed (drift_fingerprint digest s e.topic) k s.name e.topic e.trace_id c)
        ]
  ]

  -- what follows the callee's part asks for the caller
  after_callee :
      (e : Event)
      → e.parent_span_id ≡ null
      → (o : Outcome Unit) (w : Collector)
      → (after
          (after (o, w) (λ _. look (λ d. owner_of py digest e.parent_span_id d.span_owner)))
          (λ o'. lift o' >>= flag_caller py digest e)).1
        ≡ w
  unfolding owner_of
  after_callee e root (raised x) w = refl
  after_callee e root (returned t) w = rw root refl

  ingest_event-callee :
      (e : Event) (c : Collector)
      → e.parent_span_id ≡ null
      → let s = found_or_new e.service (get e.service c.services) in
        let c' = record (note_event py digest e c) { services = put e.service s c.services } in
        (ingest_event py digest e c).1 ≡ (flag_callee py digest e s c').1
  unfolding ingest_event service_of owner_of
  ingest_event-callee e c root =
      let s = found_or_new e.service (get e.service c.services) in
      let c' : Collector = record (note_event py digest e c) {
        services = put e.service s c.services;
      } in
      after_callee e root (flag_callee py digest e s c').0 (flag_callee py digest e s c').1

  -- An event without a parent files one issue at most: that of an undeclared edge of its service,
  -- and exactly if the service has registered, its registration asserts its handlers, and the topic
  -- is neither among them nor reserved. Every other fingerprint has an issue after it if it had one
  -- before.
  pub ingest_event_drift :
      (e : Event) (c : Collector) (k : String)
      → e.parent_span_id ≡ null
      → let s = found_or_new e.service (get e.service c.services) in
        is_some (get k (ingest_event py digest e c).1.issues) ≡ (
          is_some (get k c.issues)
          || (undeclared s e.topic && drift_fingerprint digest s e.topic == k))
  ingest_event_drift e c k root =
      let s = found_or_new e.service (get e.service c.services) in
      let c' : Collector = record (note_event py digest e c) {
        services = put e.service s c.services;
      } in
      ap (λ (d : Collector). is_some (get k d.issues)) (ingest_event-callee e c root)
      ∙ flag_callee-issues e s k c'
