-- ===== src/Results/Errors.antt =====
-- The structured errors of packages/benzene-results/benzene/results/result.py, and what a client
-- reads from a peer's problem document.
use benzene_python.Prelude.{
  String, not, Option, none, some, List, [], ◌∷◌, map, select, if◌then◌else◌, ◌==◌, text_key,
}
use benzene_python.Dict.{Dict, get}
use benzene_python.Json.{
  Json, text, object, array, items, Members, end, member, members, truthy, not_none,
}
use benzene_python.Results.Status.{is_successful}

pub record BenzeneError : Type 0 where
  pub message : String
  pub field : Option String
  pub code : Option String

-- `str | BenzeneError | Mapping[str, Any]`
pub data ErrorLike : Type 0 where
  plain : String → ErrorLike
  structured : BenzeneError → ErrorLike
  mapping : Dict String Json → ErrorLike

-- `payload[name] = value`, for a value that is not `None`
abbrev pub text_member : String → Option String → Members → Members
text_member name none rest = rest
text_member name (some v) rest = member name (text v) rest

-- `BenzeneError.to_payload`: an entry of a problem document's `errors`
unfoldable pub to_payload : BenzeneError → Members
to_payload e =
    member "message" (text e.message) (text_member "field" e.field (text_member "code" e.code end))

-- Python's `str(x)` of a decoded JSON value is the built-in's, and a parameter.
module _ (str : Json → String) where
  abbrev pub str_of : Option Json → Option String
  str_of none = none
  str_of (some v) = some (str v)

  abbrev pub str_or_empty : Option Json → String
  str_or_empty none = ""
  str_or_empty (some v) = str v

  -- `BenzeneError.coerce`
  unfoldable pub coerce : ErrorLike → BenzeneError
  coerce (plain s) = record { message = s; field = none; code = none }
  coerce (structured e) = e
  coerce (mapping d) = record {
    message = str_or_empty (not_none (get "message" d));
    field = str_of (not_none (get "field" d));
    code = str_of (not_none (get "code" d));
  }

  -- `item if isinstance(item, (dict, str)) else str(item)`
  unfoldable pub error_item : Json → ErrorLike
  error_item (object ms) = mapping (members ms)
  error_item (text s) = plain s
  error_item v = plain (str v)

  unfoldable pub decode_errors : List Json → List BenzeneError
  decode_errors vs =
      select (λ (e : BenzeneError). not (e.message == "")) (map (λ v. coerce (error_item v)) vs)

  unfoldable pub detail_errors : Option Json → List BenzeneError
  detail_errors none = []
  detail_errors (some v) =
      if truthy v then record { message = str v; field = none; code = none } ∷ [] else []

  unfoldable pub problem_errors : Dict String Json → List BenzeneError
  problem_errors document = elim (get "errors" document) [
    | some (array vs) ↦ decode_errors (items vs)
    | _ ↦ detail_errors (get "detail" document)
  ]

unfoldable pub problem_status : Dict String Json → Option String
problem_status document = elim (get "benzeneStatus" document) [
  | some (text status) ↦
      if status == "" then none else if is_successful status then none else some status
  | _ ↦ none
]
