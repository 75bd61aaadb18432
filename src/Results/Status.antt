-- ===== src/Results/Status.antt =====
-- packages/benzene-results/benzene/results/status.py
use benzene_python.Prelude.{String, Bool, List, [], ◌∷◌, ◌++◌, contains, text_key}

-- The constants of the class `Status`.
abbrev pub ok : String
ok = "ok"

abbrev pub created : String
created = "created"

abbrev pub accepted : String
accepted = "accepted"

abbrev pub updated : String
updated = "updated"

abbrev pub deleted : String
deleted = "deleted"

abbrev pub ignored : String
ignored = "ignored"

abbrev pub bad_request : String
bad_request = "bad-request"

abbrev pub validation_error : String
validation_error = "validation-error"

abbrev pub unauthorized : String
unauthorized = "unauthorized"

abbrev pub forbidden : String
forbidden = "forbidden"

abbrev pub not_found : String
not_found = "not-found"

abbrev pub conflict : String
conflict = "conflict"

abbrev pub too_many_requests : String
too_many_requests = "too-many-requests"

abbrev pub timeout : String
timeout = "timeout"

abbrev pub not_implemented : String
not_implemented = "not-implemented"

abbrev pub service_unavailable : String
service_unavailable = "service-unavailable"

abbrev pub unexpected_error : String
unexpected_error = "unexpected-error"

abbrev pub success_statuses : List String
success_statuses = "ok" ∷ "created" ∷ "accepted" ∷ "updated" ∷ "deleted" ∷ "ignored" ∷ []

abbrev pub failure_statuses : List String
failure_statuses =
    "bad-request" ∷ "validation-error" ∷ "unauthorized" ∷ "forbidden" ∷ "not-found" ∷ "conflict"
    ∷ "too-many-requests" ∷ "timeout" ∷ "not-implemented" ∷ "service-unavailable"
    ∷ "unexpected-error" ∷ []

abbrev pub known_statuses : List String
known_statuses = success_statuses ++ failure_statuses

unfoldable pub is_successful : String → Bool
is_successful status = contains status success_statuses

-- `status in KNOWN_STATUSES`
unfoldable pub is_known : String → Bool
is_known status = contains status known_statuses
