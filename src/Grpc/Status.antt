-- ===== src/Grpc/Status.antt =====
-- packages/benzene-grpc/benzene/grpc/status.py and codes.py
pub mod Hop
use benzene_python.Prelude.{
  String, Bool, true, false, Option, none, some, [], ◌∷◌, Key, ◌==◌, text_key, if◌then◌else◌, ◌≡◌,
  ◌↔◌, arith,
}
use benzene_python.Dict.{Dict, get}
use benzene_python.Results.Status
use benzene_python.Http.Status.{flag}

abbrev pub forward : Dict String String
forward =
    (Status.bad_request, "InvalidArgument")
    ∷ (Status.validation_error, "InvalidArgument")
    ∷ (Status.unauthorized, "Unauthenticated")
    ∷ (Status.forbidden, "PermissionDenied")
    ∷ (Status.not_found, "NotFound")
    ∷ (Status.conflict, "AlreadyExists")
    ∷ (Status.not_implemented, "Unimplemented")
    ∷ (Status.service_unavailable, "Unavailable")
    ∷ (Status.too_many_requests, "ResourceExhausted")
    ∷ (Status.timeout, "DeadlineExceeded")
    ∷ (Status.unexpected_error, "Internal")
    ∷ []

abbrev pub reverse_table : Dict String String
reverse_table =
    ("OK", Status.ok)
    ∷ ("InvalidArgument", Status.bad_request)
    ∷ ("Unauthenticated", Status.unauthorized)
    ∷ ("PermissionDenied", Status.forbidden)
    ∷ ("NotFound", Status.not_found)
    ∷ ("AlreadyExists", Status.conflict)
    ∷ ("Unimplemented", Status.not_implemented)
    ∷ ("Unavailable", Status.service_unavailable)
    ∷ ("Cancelled", Status.service_unavailable)
    ∷ ("ResourceExhausted", Status.too_many_requests)
    ∷ ("DeadlineExceeded", Status.timeout)
    ∷ ("DataLoss", Status.unexpected_error)
    ∷ ("Internal", Status.unexpected_error)
    ∷ []

unfoldable pub to_grpc : String → Option Bool → String
unfolding Status.is_successful
to_grpc status is_result_successful =
    if Status.is_successful status then "OK" else elim (get status forward) [
      | some known ↦ known
      | none ↦ if flag is_result_successful then "OK" else "Internal"
    ]

unfoldable pub from_code : String → String
from_code code = elim (get code reverse_table) [
  | some status ↦ status
  | none ↦ Status.unexpected_error
]

-- An empty trailer is no trailer.
unfoldable pub from_grpc : String → Option String → String
unfolding from_code
from_grpc code none = from_code code
from_grpc code (some trailer) = if trailer == "" then from_code code else trailer

-- The members of `grpc.StatusCode` that the binding names, and the rest by their names.
pub data StatusCode : Type 0 where
  ok invalid_argument unauthenticated permission_denied not_found already_exists unimplemented :
      StatusCode
  unavailable resource_exhausted deadline_exceeded internal cancelled data_loss : StatusCode
  unnamed : String → StatusCode

abbrev pub name_to_code : Dict String StatusCode
name_to_code =
    ("OK", ok)
    ∷ ("InvalidArgument", invalid_argument)
    ∷ ("Unauthenticated", unauthenticated)
    ∷ ("PermissionDenied", permission_denied)
    ∷ ("NotFound", not_found)
    ∷ ("AlreadyExists", already_exists)
    ∷ ("Unimplemented", unimplemented)
    ∷ ("Unavailable", unavailable)
    ∷ ("ResourceExhausted", resource_exhausted)
    ∷ ("DeadlineExceeded", deadline_exceeded)
    ∷ ("Internal", internal)
    ∷ ("Cancelled", cancelled)
    ∷ ("DataLoss", data_loss)
    ∷ []

unfoldable pub status_to_code : String → Option Bool → StatusCode
status_to_code status is_result_successful =
    elim (get (to_grpc status is_result_successful) name_to_code) [
      | some code ↦ code
      | none ↦ internal
    ]

-- `_CODE_TO_NAME.get(code, "")`, the inverted dict of `name_to_code`
unfoldable pub code_name : StatusCode → String
code_name ok = "OK"
code_name invalid_argument = "InvalidArgument"
code_name unauthenticated = "Unauthenticated"
code_name permission_denied = "PermissionDenied"
code_name not_found = "NotFound"
code_name already_exists = "AlreadyExists"
code_name unimplemented = "Unimplemented"
code_name unavailable = "Unavailable"
code_name resource_exhausted = "ResourceExhausted"
code_name deadline_exceeded = "DeadlineExceeded"
code_name internal = "Internal"
code_name cancelled = "Cancelled"
code_name data_loss = "DataLoss"
code_name (unnamed s) = ""

unfoldable pub code_to_status : StatusCode → String
unfolding code_name
code_to_status code = from_grpc (code_name code) none
