-- ===== src/Core/Registry.antt =====
-- packages/benzene-core/benzene/core/registry.py and the record of handler.py. A handler is of a
-- type of its own, and so is a declared request or response type. `none` is a
-- DuplicateHandlerError.
pub mod Defaults
use benzene_python.Prelude.{
  String, Bool, true, false, ◌&&◌, Option, none, some, List, [], ◌∷◌, if◌then◌else◌, is_some, find,
  select, contains, ◌++◌, ◌==◌, text_key, pair_key,
}
use benzene_python.Dict.{Dict, get, put, values, has_key}

pub record HandlerDefinition {ℓ} (T H : Type ℓ) : Type ℓ where
  pub topic : String
  pub handler : H
  pub version : String
  pub request_type : Option T
  pub response_type : Option T
  pub is_default : Bool

module _ {ℓ} {T H : Type ℓ} where
  -- the key of `_by_key`
  abbrev pub key_of : HandlerDefinition T H → String × String
  key_of d = (d.topic, d.version)

-- the field `_by_key`
abbrev pub Registry {ℓ} : (T H : Type ℓ) → Type ℓ
Registry T H = Dict (String × String) (HandlerDefinition T H)

module _ {ℓ} {T H : Type ℓ} where
  unfoldable pub definitions : Registry T H → List (HandlerDefinition T H)
  definitions r = values r

  unfoldable pub versions_of : String → Registry T H → List (HandlerDefinition T H)
  versions_of topic r = select (λ (d : HandlerDefinition T H). d.topic == topic) (values r)

  -- `next((d for d in self.versions_of(topic) if d.is_default), None)`
  unfoldable pub declared_default : String → Registry T H → Option (HandlerDefinition T H)
  declared_default topic r =
      find (λ (d : HandlerDefinition T H). d.is_default) (versions_of topic r)

  unfoldable pub add_definition : HandlerDefinition T H → Registry T H → Option (Registry T H)
  add_definition d r =
      if has_key (key_of d) r
      then none
      else if d.is_default && is_some (declared_default d.topic r)
      then none
      else some (put (key_of d) d r)

  -- `register`, by the rule that infers a request type
  unfoldable pub register :
      (H → Option T)
      → String
      → H
      → String
      → Option T
      → Option T
      → Bool
      → Registry T H
      → Option (Registry T H)
  register infer topic handler version request_type response_type default r =
      add_definition
        (record {
          topic = topic;
          handler = handler;
          version = version;
          request_type = if is_some request_type then request_type else infer handler;
          response_type = response_type;
          is_default = default;
        })
        r

  -- `from_definitions`, over the definitions of all the sources in turn
  unfoldable pub add_all : List (HandlerDefinition T H) → Registry T H → Option (Registry T H)
  add_all [] r = some r
  add_all (d ∷ ds) r = elim (add_definition d r) [ none ↦ none | some r' ↦ add_all ds r' ]

  unfoldable pub lookup : String → String → Registry T H → Option (HandlerDefinition T H)
  lookup topic version r = get (topic, version) r

  unfoldable pub default_for : String → Registry T H → Option (HandlerDefinition T H)
  default_for topic r = elim (get (topic, "") r) [
    | some unversioned ↦ some unversioned
    | none ↦ declared_default topic r
  ]

  -- `dict.fromkeys(d.topic for d in self._by_key.values())`
  unfoldable pub topics : List (HandlerDefinition T H) → List String → List String
  topics [] seen = seen
  topics (d ∷ ds) seen = topics ds (if contains d.topic seen then seen else seen ++ d.topic ∷ [])

  unfoldable pub topics_without_default : Registry T H → List String
  topics_without_default r =
      select (λ topic. if is_some (default_for topic r) then false else true) (topics (values r) [])

  -- the default selector
  unfoldable pub exact_version : Registry T H → String → String → Option (HandlerDefinition T H)
  exact_version r topic version =
      if version == "" then default_for topic r else lookup topic version r
