-- ===== src/Mesh/Specdoc.antt =====
-- packages/benzene-mesh/benzene/mesh/specdoc.py: reading a Contract Document. Python's `str` of a
-- JSON value is a parameter.
pub mod References
use benzene_python.Prelude.{
  ℕ, zero, suc, String, ◌≡◌, Bool, true, false, not, ◌&&◌, Option, none, some, List, [], ◌∷◌, ◌++◌,
  map, select, length, if◌then◌else◌, is_some, contains, ◌==◌, text_key, starts_with, after_prefix,
}
use benzene_python.Dict.{Dict, get}
use benzene_python.Json.{
  Json, text, array, object, Items, nil, cons, items, Members, end, member, members, truthy,
  not_none,
}

abbrev pub reserved_topic_prefix : String
reserved_topic_prefix = "benzene:"

abbrev pub schema_dialect : String
schema_dialect = "openapi-3.0"

abbrev pub entry_members : List String
entry_members = "requests" ∷ "events" ∷ "sends" ∷ []

abbrev pub schema_ref_prefix : String
schema_ref_prefix = "#/components/schemas/"

unfoldable pub is_reserved_topic : String → Bool
is_reserved_topic topic = starts_with topic reserved_topic_prefix

-- `bool(value)` of `d.get(k)`
abbrev pub is_given : Option Json → Bool
is_given none = false
is_given (some v) = truthy v

abbrev pub is_list : Option Json → Bool
is_list (some (array vs)) = true
is_list _ = false

abbrev pub is_text : Option Json → String → Bool
is_text (some (text s)) t = s == t
is_text _ t = false

unfoldable pub is_contract_document : Dict String Json → Bool
is_contract_document document =
    is_text (get "schemaDialect" document) schema_dialect
    && is_given (get "service" document)
    && is_list (get "requests" document)

abbrev pub list_items : Option Json → List Json
list_items (some (array vs)) = items vs
list_items _ = []

module _ (str : Json → String) where
  -- `str(value) if value else None`
  abbrev pub given_text : Option Json → Option String
  given_text none = none
  given_text (some v) = if truthy v then some (str v) else none

  unfoldable pub spec_service : Dict String Json → String → String
  spec_service document default = elim (given_text (get "service" document)) [
    | none ↦ default
    | some s ↦ s
  ]

  unfoldable pub spec_service_version : Dict String Json → Option String
  spec_service_version document = given_text (get "serviceVersion" document)

  unfoldable pub spec_registration_hash : Dict String Json → Option String
  spec_registration_hash document = given_text (get "registrationHash" document)

  -- the members that are present as lists and not named in `degraded`
  unfoldable pub known_members : Dict String Json → List String
  known_members document =
      let undetermined = map str (list_items (get "degraded" document)) in
      select (λ m. is_list (get m document) && not (contains m undetermined)) entry_members

  -- the topic of an entry, if it is well-formed and not reserved
  abbrev pub topic_if : Option String → Option String
  topic_if none = none
  topic_if (some t) = if is_reserved_topic t then none else some t

  unfoldable pub topic_of_entry : Json → Option String
  topic_of_entry (object ms) = topic_if (given_text (get "topic" (members ms)))
  topic_of_entry v = none

  abbrev pub entries_of : List Json → List (String × Dict String Json)
  entries_of [] = []
  entries_of (object ms ∷ vs) = elim (topic_of_entry (object ms)) [
    | none ↦ entries_of vs
    | some t ↦ (t, members ms) ∷ entries_of vs
  ]
  entries_of (v ∷ vs) = entries_of vs

  -- the entries, each with the topic it names
  unfoldable pub spec_entries : Dict String Json → String → List (String × Dict String Json)
  spec_entries document m = entries_of (list_items (get m document))

  abbrev pub add_topics : List (String × Dict String Json) → List String → List String
  add_topics [] topics = topics
  add_topics ((t, entry) ∷ rest) topics =
      add_topics rest (if contains t topics then topics else topics ++ t ∷ [])

  abbrev pub topics_from : Dict String Json → List String → List String → List String
  topics_from document [] topics = topics
  topics_from document (m ∷ ms) topics =
      topics_from document ms (add_topics (spec_entries document m) topics)

  unfoldable pub spec_topic_ids : Dict String Json → List String → List String
  spec_topic_ids document ms = topics_from document ms []

abbrev pub object_members : Option Json → Dict String Json
object_members (some (object ms)) = members ms
object_members _ = []

unfoldable pub schema_catalogue : Dict String Json → Dict String Json
schema_catalogue document =
    object_members (get "schemas" (object_members (get "components" document)))

-- the name in a reference into the catalogue
abbrev pub name_in : Option Json → Option String
name_in (some (text s)) = after_prefix schema_ref_prefix s
name_in _ = none

abbrev pub reference_of : Members → Option String
reference_of ms = name_in (get "$ref" (members ms))

-- `_resolve_value`, and `resolve_schema` of an object, where `follow` is what a reference becomes.
unfoldable mutual
  pub resolve_value : (String → Members) → Json → Json
  resolve_value follow (object ms) =
      object (elim (reference_of ms) [ some name ↦ follow name | none ↦ resolve_members follow ms ])
  resolve_value follow (array vs) = array (resolve_items follow vs)
  resolve_value follow v = v

  pub resolve_items : (String → Members) → Items → Items
  resolve_items follow nil = nil
  resolve_items follow (cons v vs) = cons (resolve_value follow v) (resolve_items follow vs)

  pub resolve_members : (String → Members) → Members → Members
  resolve_members follow end = end
  resolve_members follow (member k v ms) =
      member k (resolve_value follow v) (resolve_members follow ms)

abbrev pub object_of : Json → Members
object_of (object ms) = ms
object_of v = end

-- a reference that is being expanded on the path, or that names no schema, is cut
abbrev pub follow :
    (List String → Json → Members) → Dict String Json → List String → String → Members
follow expand schemas seen name =
    if contains name seen
    then end
    else elim (get name schemas) [ none ↦ end | some schema ↦ expand (seen ++ name ∷ []) schema ]

-- by the references that may still be followed on a path
unfoldable pub resolve_within : ℕ → Dict String Json → List String → Json → Members
resolve_within zero schemas seen schema =
    object_of (resolve_value (follow (λ more next. end) schemas seen) schema)
resolve_within (suc left) schemas seen schema =
    object_of (resolve_value (follow (resolve_within left schemas) schemas seen) schema)

unfoldable pub resolve_schema : Json → Dict String Json → Members
resolve_schema schema schemas = resolve_within (length schemas) schemas [] schema
