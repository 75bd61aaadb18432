-- ===== src/Auth/Tests.antt =====
-- Basic authentication of a request with credentials and of one without.
use benzene_python.Prelude.{
  if◌then◌else◌, false, ℕ, suc, String, ◌≡◌, refl, Option, none, some, [], ◌∷◌, ◌==◌, text_key,
}
use benzene_python.Effect.{returned, Coroutine}
use benzene_python.Dict.{get}
use benzene_python.Results.Result
use benzene_python.Core.Context.{Context}
use benzene_python.Core.Pipeline.{Next}
use benzene_python.Auth.{
  Verdict, answered, State, partition, decode_credentials, read_scheme, read_basic_credentials,
  resolve_principal, reject, admit, verified, check_credentials, basic_auth_interception,
}
use benzene_python.Auth.Guarded.{guard, Guarded, basic_auth_guards}

abbrev lower : String → String
lower s = if s == "Basic" then "basic" else s

-- Stands for the decoding of one text.
abbrev b64_text : String → Option String
b64_text s = if s == "YW5uOnM6MQ==" then some "ann:s:1" else none

abbrev verify : String → String → Coroutine ℕ (Verdict ℕ)
verify username password n = (returned (answered (password == "s:1")), suc n)

abbrev request : Context String
request = record {
  topic = "orders:place";
  version = "";
  request = "book";
  headers = ("authorization", "Basic YW5uOnM6MQ==") ∷ [];
  result = none;
  ignore_unmatched_topic = false;
}

abbrev anonymous : Context String
anonymous = record request { headers = [] }

abbrev handles : Next (State ℕ String ℕ)
handles (q, (c, n)) = (returned tt, (q, (record c { result = some (Result.ok (some "done")) }, n)))

basic_auth_runs :
    (read_basic_credentials lower b64_text (some "Basic YW5uOnM6MQ==") ≡ some ("ann", "s:1"))
    × (basic_auth_interception lower b64_text 0 verify "benzene" handles (none, (request, 7)) ≡ (
      returned tt,
      (
        some (record { name = "ann"; claims = 0 }),
        (record request { result = some (Result.ok (some "done")) }, 8),
      ),
    ))
    × ((basic_auth_interception lower b64_text 0 verify "benzene" handles
          (none, (anonymous, 7))).1.0
        ≡ none)
unfolding basic_auth_interception check_credentials verified admit reject resolve_principal
    read_basic_credentials read_scheme decode_credentials partition get
basic_auth_runs = (refl, refl, refl)

basic_auth_guards_example :
    Guarded lower b64_text 0 verify "benzene"
      (read_basic_credentials lower b64_text (some "Basic YW5uOnM6MQ=="))
      handles
      none
      request
      7
      (guard lower b64_text 0 verify "benzene" handles (none, (request, 7)))
unfolding get
basic_auth_guards_example =
    basic_auth_guards lower b64_text 0 verify "benzene" handles none request 7
