-- ===== src/Core/Tests/Messages.antt =====
-- The registry and the router at two versions of one topic.
use benzene_python.Prelude.{
  is_empty, ℕ, suc, String, Bool, true, false, ◌≡◌, ◌≢◌, ◌⊎◌, inl, inr, refl, Option, none, some,
  [], ◌∷◌, arith, text_key, pair_key, ◌==◌, if◌then◌else◌, ◌&&◌,
}
use benzene_python.Effect.{returned, raised, error, pure}
use benzene_python.Dict.{get, put}
use benzene_python.Results.Result
use benzene_python.Results.Result.{Result}
use benzene_python.Core.Context.{Context}
use benzene_python.Core.Registry.{
  HandlerDefinition, Registry, add_definition, add_all, lookup, exact_version, versions_of,
  declared_default, default_for, topics, topics_without_default, register,
}
use benzene_python.Core.Registry.Defaults.{IsValid, from_definitions-IsValid, exact_version_sound}
use benzene_python.Core.Router.{Handler, ping_topic}
use benzene_python.Core.Router.Answers.{Answered, Served, router, router_answers, router_serves}

abbrev quote : String → String
quote s = s

abbrev type_name : Option String → String
type_name none = "the request type"
type_name (some s) = s

abbrev to_request : Option String → String → String ⊎ String
to_request none received = inr received
to_request (some name) received =
    if received == "" then inl "missing 1 required argument" else inr received

abbrev places : Handler String ℕ
places request n = (returned (Result.created (some request)), suc n)

abbrev breaks : Handler String ℕ
breaks request n = (raised (error "KeyError" "sku"), suc n)

abbrev definition : String → Handler String ℕ → Bool → HandlerDefinition String (Handler String ℕ)
definition version handler default = record {
  topic = "orders:place";
  handler = handler;
  version = version;
  request_type = some "Order";
  response_type = none;
  is_default = default;
}

abbrev v1 : HandlerDefinition String (Handler String ℕ)
v1 = definition "v1" places true

abbrev v2 : HandlerDefinition String (Handler String ℕ)
v2 = definition "v2" breaks false

abbrev empty : Registry String (Handler String ℕ)
empty = []

abbrev first : Registry String (Handler String ℕ)
first = (("orders:place", "v1"), v1) ∷ []

abbrev both : Registry String (Handler String ℕ)
both = (("orders:place", "v1"), v1) ∷ (("orders:place", "v2"), v2) ∷ []

abbrev message : String → Context String
message version = record {
  topic = "orders:place";
  version = version;
  request = "book";
  headers = [];
  result = none;
  ignore_unmatched_topic = true;
}

added_first : add_definition v1 empty ≡ some first
unfolding add_definition get put declared_default versions_of
added_first = refl

added : add_definition v2 first ≡ some both
unfolding add_definition get put declared_default versions_of
added = refl

registry_runs :
    (add_definition v1 both ≡ none)
    × (add_definition (definition "v3" places true) both ≡ none)
    × (topics_without_default both ≡ [])
    × (topics_without_default ((("orders:place", "v2"), v2) ∷ []) ≡ "orders:place" ∷ [])
    × (exact_version both "orders:place" "" ≡ some v1)
    × (exact_version both "orders:place" "v3" ≡ none)
    × (register (λ h. some "Order") "orders:place" places "v1" none none true empty ≡ some first)
unfolding add_definition get put declared_default versions_of topics_without_default topics
    default_for exact_version lookup register
registry_runs = (refl, refl, refl, refl, refl, refl, refl)

added_all : add_all (v1 ∷ v2 ∷ []) empty ≡ some both
unfolding add_all add_definition get put declared_default versions_of
added_all = refl

from_definitions-IsValid_example : IsValid both
from_definitions-IsValid_example = from_definitions-IsValid (v1 ∷ v2 ∷ []) both added_all

versionless : exact_version both "orders:place" "" ≡ some v1
unfolding exact_version default_for declared_default versions_of get
versionless = refl

exact_version_sound_example :
    (◌≡◌ {A = String} v1.topic "orders:place")
    × ((◌≡◌ {A = String} v1.version "")
        ⊎ ((◌≡◌ {A = String} "" "")
            × (v1.is_default ≡ true)
            × (lookup "orders:place" "" both ≡ none)))
exact_version_sound_example =
    exact_version_sound "orders:place" "" v1 both
      (from_definitions-IsValid (v1 ∷ v2 ∷ []) both added_all) versionless

router_answers_example :
    Answered (router quote type_name to_request both exact_version (pure tt) (message "v2", 0))
    × (router quote type_name to_request both exact_version (pure tt) (message "v2", 0)
        ≡ router quote type_name to_request both exact_version
            (λ s. (raised (error "RuntimeError" "called"), s))
            (message "v2", 0))
router_answers_example =
    router_answers quote type_name to_request both exact_version (pure tt)
      (λ s. (raised (error "RuntimeError" "called"), s)) (message "v2") 0

has_topic : ◌≢◌ {A = String} "orders:place" ""
has_topic = ground (arith, text_key.same_iff "orders:place" "")

no_ping : ◌≢◌ {A = String} "orders:place" ping_topic
no_ping = ground (arith, text_key.same_iff "orders:place" ping_topic)

has_version : ◌≢◌ {A = String} "v3" ""
has_version = ground (arith, text_key.same_iff "v3" "")

router_serves_example :
    Served
      (breaks "book" 0)
      (message "v2")
      (router quote type_name to_request both exact_version (pure tt) (message "v2", 0))
router_serves_example =
    router_serves quote type_name to_request first both v2 (pure tt) (message "v2") 0 "book" added
      refl refl has_topic no_ping refl

unserved : lookup "orders:place" "v3" both ≡ none
unfolding lookup get
unserved = refl

known : (is_empty (versions_of "orders:place" both) && true) ≡ false
unfolding versions_of
known = refl
