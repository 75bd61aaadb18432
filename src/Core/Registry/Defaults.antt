-- ===== src/Core/Registry/Defaults.antt =====
-- What registration keeps, and what the default selector serves.
use benzene_python.Prelude.{
  String, true, ◌≡◌, none, some, List, [], ◌∷◌, ◌⊎◌, inl, inr, arith, if◌then◌else◌, is_some, false,
  ◌&&◌, Bool-cases, Option-cases, ◌==◌, text_key, pair_key, ap, sym, ◌∙◌,
}
use benzene_python.Dict.{get, put}
use benzene_python.Dict.Laws.{get-put, get-put_cases}
use benzene_python.Core.Registry.{
  HandlerDefinition, Registry, key_of, versions_of, declared_default, add_definition, add_all,
  lookup, default_for, exact_version,
}

module _ {ℓ} {T H : Type ℓ} where
  add-cases :
      (d : HandlerDefinition T H) (r r' : Registry T H)
      → add_definition d r ≡ some r'
      → (get (key_of d) r ≡ none)
        × (r' ≡ put (key_of d) d r)
        × ((d.is_default && is_some (declared_default d.topic r)) ≡ false)
  unfolding add_definition
  add-cases d r r' added = ground arith

  -- A definition that is accepted is served under its topic and version, which no definition was
  -- before; what every other pair is served by stays the same.
  pub lookup-add_definition :
      (d : HandlerDefinition T H) (r r' : Registry T H) (topic version : String)
      → add_definition d r ≡ some r'
      → (lookup d.topic d.version r ≡ none)
        × (lookup topic version r'
            ≡ (if key_of d == (topic, version) then some d else lookup topic version r))
  unfolding lookup
  lookup-add_definition d r r' topic version added =
      ground (arith, add-cases d r r' added, get-put (key_of d) (topic, version) d r)

  -- Every definition stands under its own topic and version, and of the definitions declared
  -- default a topic has one at most.
  pub IsValid : Registry T H → Type ℓ
  IsValid r =
      ((k : String × String) (d : HandlerDefinition T H) → get k r ≡ some d → key_of d ≡ k)
      × ((k k' : String × String) (d d' : HandlerDefinition T H)
          → get k r ≡ some d
          → get k' r ≡ some d'
          → d.topic ≡ d'.topic
          → d.is_default ≡ true
          → d'.is_default ≡ true
          → k ≡ k')

  -- A definition of the topic that is declared default is seen by the test of a registration.
  declared_seen :
      (k : String × String) (d : HandlerDefinition T H) (r : Registry T H)
      → get k r ≡ some d
      → d.is_default ≡ true
      → is_some (declared_default d.topic r) ≡ true
  unfolding declared_default versions_of get
  declared_seen k d [] found is_default = ground arith
  declared_seen k d ((j, e) ∷ r) found is_default =
      ground (arith, declared_seen k d r, text_key.same_iff e.topic d.topic)

  -- What is found as a declared default is of the topic, and declared default.
  declared_sound :
      (topic : String) (d : HandlerDefinition T H) (r : Registry T H)
      → declared_default topic r ≡ some d
      → (d.topic ≡ topic) × (d.is_default ≡ true)
  unfolding declared_default versions_of
  declared_sound topic d [] found = ground arith
  declared_sound topic d ((j, e) ∷ r) found =
      ground (arith, declared_sound topic d r, text_key.same_iff e.topic topic)

  add-IsValid :
      (d : HandlerDefinition T H) (r r' : Registry T H)
      → IsValid r
      → add_definition d r ≡ some r'
      → IsValid r'
  unfolding IsValid
  add-IsValid d r r' (filed, one_default) added =
      let (fresh, written, no_default) = add-cases d r r' added in
      let found_in : (k : String × String) (e : HandlerDefinition T H)
          → get k r' ≡ some e
          → ((key_of d ≡ k) × (e ≡ d)) ⊎ (get k r ≡ some e) =
        λ k e found. get-put_cases (key_of d) k d e r (ap (get k) (sym written) ∙ found) in
      (
        λ k e found. elim (found_in k e found) [
          | inl (at, new) ↦ ap key_of new ∙ at
          | inr old ↦ filed k e old
        ],
        λ k k' e e' found found' same_topic is_default is_default'. elim (found_in k e found) [
          | inl new ↦ elim (found_in k' e' found') [
            | inl new' ↦ sym (new.0) ∙ new'.0
            | inr old' ↦ absurd (ground (arith, declared_seen k' e' r))
          ]
          | inr old ↦ elim (found_in k' e' found') [
            | inl new' ↦ absurd (ground (arith, declared_seen k e r))
            | inr old' ↦ one_default k k' e e' old old' same_topic is_default is_default'
          ]
        ],
      )

  add_all-IsValid :
      (ds : List (HandlerDefinition T H)) (r r' : Registry T H)
      → IsValid r
      → add_all ds r ≡ some r'
      → IsValid r'
  unfolding add_all
  add_all-IsValid [] r r' valid added = ground arith
  add_all-IsValid (d ∷ ds) r r' valid added = elim (Option-cases (add_definition d r)) [
    | inl refused ↦ absurd (ground arith)
    | inr (r₁, first) ↦ add_all-IsValid ds r₁ r' (add-IsValid d r r₁ valid first) (ground arith)
  ]

  -- A registry that is built from definitions is valid: every definition stands under its own topic
  -- and version, and no topic has two declared defaults.
  pub from_definitions-IsValid :
      (ds : List (HandlerDefinition T H)) (r : Registry T H) → add_all ds [] ≡ some r → IsValid r
  unfolding get IsValid
  from_definitions-IsValid ds r built =
      add_all-IsValid ds [] r
        (λ k d found. absurd (cc), λ k k' d d' found found' s t u. absurd (cc)) built

  -- The default selector never serves another topic, nor another version than the one asked for: a
  -- message with a version gets a handler of that version, and one without the unversioned handler,
  -- or else a handler that is declared default.
  pub exact_version_sound :
      (topic version : String) (d : HandlerDefinition T H) (r : Registry T H)
      → IsValid r
      → exact_version r topic version ≡ some d
      → (d.topic ≡ topic)
        × ((d.version ≡ version)
            ⊎ ((version ≡ "") × (d.is_default ≡ true) × (lookup topic "" r ≡ none)))
  unfolding exact_version default_for lookup IsValid
  exact_version_sound topic version d r (filed, one_default) served =
      elim (Bool-cases (version == "")) [
        | inl unversioned ↦ elim (Option-cases (get (topic, "") r)) [
          | inl missing ↦ ground (arith, declared_sound topic d r, text_key.same_iff version "")
          | inr (e, found) ↦ ground (arith, filed (topic, "") e, text_key.same_iff version "")
        ]
        | inr versioned ↦ ground (arith, filed (topic, version) d)
      ]
