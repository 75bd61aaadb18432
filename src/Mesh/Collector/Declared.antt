-- ===== src/Mesh/Collector/Declared.antt =====
-- The topics that a Contract Document declares, by its entries.
use benzene_python.Prelude.{
  String, ◌≡◌, ◌↔◌, refl, ap, ◌∙◌, inl, inr, Bool, true, false, ◌||◌, ◌⊎◌, Option, none, some, List,
  [], ◌∷◌, ◌++◌, arith, Has, if◌then◌else◌, contains, contains-append, ◌==◌, text_key, option_key,
  Bool-cases, Option-cases, starts_with,
}
use benzene_python.Dict.{Dict, get}
use benzene_python.Json.{
  Json, null, boolean, integer, negative, real, text, array, object, items, members, truthy,
}
use benzene_python.Mesh.Specdoc.{
  is_reserved_topic, list_items, given_text, topic_if, topic_of_entry, entries_of, spec_entries,
  add_topics, spec_topic_ids,
}

module _ (str : Json → String) where
  -- an entry that names this topic
  abbrev pub Names : String → Json → Type 0
  Names topic (object ms) =
      (v : Json) × (get "topic" (members ms) ≡ some v) × (truthy v ≡ true) × (str v ≡ topic)
  Names topic _ = ⊥

  -- This value is a list with an entry that names the topic, which is not a reserved one.
  abbrev pub DeclaredIn : String → Option Json → Type 0
  DeclaredIn topic (some (array vs)) =
      ((v : Json) × Has v (items vs) × Names topic v) × (starts_with topic "benzene:" ≡ false)
  DeclaredIn topic _ = ⊥

  -- A member of the document declares the topic.
  abbrev pub Declares : String → Dict String Json → String → Type 0
  Declares m document topic = DeclaredIn topic (get m document)

  -- some of these entries is of the topic
  named : String → List (String × Dict String Json) → Bool
  named topic [] = false
  named topic ((t, entry) ∷ rest) = if t == topic then true else named topic rest

  contains-add_topics :
      (topic : String) (entries : List (String × Dict String Json)) (topics : List String)
      → contains topic (add_topics str entries topics)
        ≡ (contains topic topics || named topic entries)
  unfolding named
  contains-add_topics topic [] topics = ground arith
  contains-add_topics topic ((t, entry) ∷ rest) topics = ground (
    arith,
    contains-add_topics topic rest (if contains t topics then topics else topics ++ t ∷ []),
    contains-append topic topics (t ∷ []),
    text_key.same_iff t topic,
  )

  NamesFree : (topic : String) (v : Json) → Type 0
  NamesFree topic v = Names topic v × (starts_with topic "benzene:" ≡ false)

  topic_named :
      (topic : String) (v : Json)
      → (topic_of_entry str v ≡ some topic → NamesFree topic v)
        × (NamesFree topic v → topic_of_entry str v ≡ some topic)
  unfolding NamesFree topic_of_entry is_reserved_topic
  topic_named topic (object ms) = elim (Option-cases (get "topic" (members ms))) [
    | inl missing ↦ ((λ h. absurd (ground arith)), (λ h. absurd (ground arith)))
    | inr (v, found) ↦
        ((λ h. ((v, found, ground arith, ground arith), ground arith)), (λ h. ground arith))
  ]
  topic_named topic null = ((λ h. absurd (cc)), (λ h. elim (h.0) [ ]))
  topic_named topic (boolean b) = ((λ h. absurd (cc)), (λ h. elim (h.0) [ ]))
  topic_named topic (integer n) = ((λ h. absurd (cc)), (λ h. elim (h.0) [ ]))
  topic_named topic (negative n) = ((λ h. absurd (cc)), (λ h. elim (h.0) [ ]))
  topic_named topic (real z s) = ((λ h. absurd (cc)), (λ h. elim (h.0) [ ]))
  topic_named topic (text s) = ((λ h. absurd (cc)), (λ h. elim (h.0) [ ]))
  topic_named topic (array vs) = ((λ h. absurd (cc)), (λ h. elim (h.0) [ ]))

  entries_cons :
      (topic : String) (v : Json) (vs : List Json)
      → named topic (entries_of str (v ∷ vs))
        ≡ (topic_of_entry str v == some topic || named topic (entries_of str vs))
  unfolding named topic_of_entry
  entries_cons topic (object ms) vs =
      elim (Option-cases (topic_if str (given_text str (get "topic" (members ms))))) [
        | inl missing ↦ ground arith
        | inr (t, found) ↦ ground arith
      ]
  entries_cons topic null vs = refl
  entries_cons topic (boolean b) vs = refl
  entries_cons topic (integer n) vs = refl
  entries_cons topic (negative n) vs = refl
  entries_cons topic (real z s) vs = refl
  entries_cons topic (text s) vs = refl
  entries_cons topic (array us) vs = refl

  named_entries :
      (topic : String) (vs : List Json)
      → (named topic (entries_of str vs) ≡ true → (v : Json) × Has v vs × NamesFree topic v)
        × ((v : Json) → Has v vs → NamesFree topic v → named topic (entries_of str vs) ≡ true)
  unfolding named
  named_entries topic [] = ((λ h. absurd (cc)), (λ v there declared. absurd there))
  named_entries topic (v ∷ vs) =
      let rest = named_entries topic vs in
      let here : ((topic_of_entry str v == some topic) ≡ true)
          ↔ (topic_of_entry str v ≡ some topic) =
        (option_key ⦃e = text_key⦄).same_iff (topic_of_entry str v) (some topic) in
      let split = entries_cons topic v vs in
      (
        (λ h. elim (Bool-cases (topic_of_entry str v == some topic)) [
          | inl same ↦ (v, inl refl, (topic_named topic v).0 (here.0 same))
          | inr other ↦ let (u, there, declared) = rest.0 (ground arith) in (u, inr there, declared)
        ]),
        (λ u there declared. elim there [
          | inl same ↦
              let found = here.1 ((topic_named topic v).1 (rw (← same) declared)) in ground arith
          | inr further ↦ let found = rest.1 u further declared in ground arith
        ]),
      )

  named_in :
      (topic : String) (o : Option Json)
      → (named topic (entries_of str (list_items o)) ≡ true) ↔ DeclaredIn topic o
  unfolding named NamesFree
  named_in topic (some (array vs)) = (
    (λ h.
        let (v, there, (names, free)) = (named_entries topic (items vs)).0 h in
        ((v, there, names), free)),
    (λ h. (named_entries topic (items vs)).1 h.0.0 h.0.1 (h.0.2, h.1)),
  )
  named_in topic none = ground arith
  named_in topic (some null) = ground arith
  named_in topic (some (boolean b)) = ground arith
  named_in topic (some (integer n)) = ground arith
  named_in topic (some (negative n)) = ground arith
  named_in topic (some (real z t)) = ground arith
  named_in topic (some (text t)) = ground arith
  named_in topic (some (object ms)) = ground arith

  pub spec_topic_ids_one :
      (document : Dict String Json) (m topic : String)
      → (contains topic (spec_topic_ids str document (m ∷ [])) ≡ true) ↔ Declares m document topic
  unfolding spec_topic_ids spec_entries
  spec_topic_ids_one document m topic =
      rw (contains-add_topics topic (entries_of str (list_items (get m document))) [])
        (named_in topic (get m document))

  pub spec_topic_ids_two :
      (document : Dict String Json) (m n topic : String)
      → (contains topic (spec_topic_ids str document (m ∷ n ∷ [])) ≡ true)
        ↔ (Declares m document topic ⊎ Declares n document topic)
  unfolding spec_topic_ids spec_entries
  spec_topic_ids_two document m n topic =
      let first = entries_of str (list_items (get m document)) in
      let second = entries_of str (list_items (get n document)) in
      let one = named_in topic (get m document) in
      let two = named_in topic (get n document) in
      let split : contains topic (add_topics str second (add_topics str first []))
          ≡ (named topic first || named topic second) =
        contains-add_topics topic second (add_topics str first [])
        ∙ ap (λ b. b || named topic second) (contains-add_topics topic first []) in
      (
        (λ h. elim (Bool-cases (named topic first)) [
          | inl there ↦ inl (one.0 there)
          | inr missing ↦ inr (two.0 (ground arith))
        ]),
        (λ h. elim h [
          | inl there ↦ let found = one.1 there in ground arith
          | inr there ↦ let found = two.1 there in ground arith
        ]),
      )
