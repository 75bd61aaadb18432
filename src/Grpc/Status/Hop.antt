-- ===== src/Grpc/Status/Hop.antt =====
-- What a status keeps over a gRPC hop, through the members of `grpc.StatusCode`.
use benzene_python.Prelude.{
  String, Bool, true, false, Option, none, some, ◌≡◌, ◌≢◌, refl, arith, inl, inr, Bool-cases,
  Option-cases, All, text_key, if◌then◌else◌,
}
use benzene_python.Dict.{get}
use benzene_python.Dict.Members.{get-All}
use benzene_python.Results.Status
use benzene_python.Http.Status.{flag}
use benzene_python.Grpc.Status.{
  forward, to_grpc, from_code, from_grpc, StatusCode, name_to_code, status_to_code, code_name,
  code_to_status,
}

-- the name that `to_grpc` emits has a member, which the client's table names in the same way
record IsNamed (name : String) : Type 0 where
  has : get name name_to_code ≡ none → ⊥
  back : (c : StatusCode) → get name name_to_code ≡ some c → code_name c ≡ name

IsNamed-forward : All (λ p. IsNamed p.1) forward
unfolding get code_name
IsNamed-forward = ground arith

IsNamed-ok : IsNamed "OK"
unfolding get code_name
IsNamed-ok = record { has = λ h. ground arith; back = λ c h. ground arith }

IsNamed-internal : IsNamed "Internal"
unfolding get code_name
IsNamed-internal = record { has = λ h. ground arith; back = λ c h. ground arith }

module _ (s : String) (b : Option Bool) where
  to_grpc_success : Status.is_successful s ≡ true → to_grpc s b ≡ "OK"
  unfolding to_grpc
  to_grpc_success h = ground arith

  to_grpc_listed :
      (c : String) → Status.is_successful s ≡ false → get s forward ≡ some c → to_grpc s b ≡ c
  unfolding to_grpc
  to_grpc_listed c h found = ground arith

  to_grpc_unlisted :
      Status.is_successful s ≡ false
      → get s forward ≡ none
      → to_grpc s b ≡ (if flag b then "OK" else "Internal")
  unfolding to_grpc
  to_grpc_unlisted h missing = ground arith

  -- A property of the names that `to_grpc` can emit holds of the one emitted.
  to_grpc_cases :
      (P : String → Type 0) → P "OK" → P "Internal" → All (λ p. P p.1) forward → P (to_grpc s b)
  to_grpc_cases P ok internal rows = elim (Bool-cases (Status.is_successful s)) [
    | inl success ↦ rw (to_grpc_success success) ok
    | inr failure ↦ elim (Option-cases (get s forward)) [
      | inl missing ↦ elim (Bool-cases (flag b)) [
        | inl stated ↦ rw (to_grpc_unlisted failure missing, stated) ok
        | inr other ↦ rw (to_grpc_unlisted failure missing, other) internal
      ]
      | inr (c, found) ↦
          rw (to_grpc_listed c failure found) (get-All (λ _ name. P name) s forward rows found)
    ]
  ]

  -- Going through the members of `grpc.StatusCode` loses nothing: for every status text and stated
  -- class, the status that a client without trailer reads from the member sent is the one that the
  -- table of names gives for the name emitted, so the fallback member of the server is never sent
  -- for want of a member.
  pub code_to_status-status_to_code :
      (get (to_grpc s b) name_to_code ≢ none)
      × (code_to_status (status_to_code s b) ≡ from_grpc (to_grpc s b) none)
  unfolding code_to_status status_to_code
  code_to_status-status_to_code =
      let named : IsNamed (to_grpc s b) =
        to_grpc_cases IsNamed IsNamed-ok IsNamed-internal IsNamed-forward in
      elim (Option-cases (get (to_grpc s b) name_to_code)) [
        | inl missing ↦ absurd (named.has missing)
        | inr (c, found) ↦ (named.has, ground (arith, named.back c found))
      ]

class_rows : All (λ p. Status.is_successful (from_code p.1) ≡ false) forward
unfolding Status.is_successful from_code get
class_rows = ground arith

class_of_ok : Status.is_successful (from_code "OK") ≡ true
unfolding Status.is_successful from_code get
class_of_ok = refl

class_of_internal : Status.is_successful (from_code "Internal") ≡ false
unfolding Status.is_successful from_code get
class_of_internal = refl

class_of_forward :
    (s : String) (c : String) → get s forward ≡ some c → Status.is_successful (from_code c) ≡ false
class_of_forward s c found =
    get-All (λ _ name. Status.is_successful (from_code name) ≡ false) s forward class_rows found

-- A status keeps its class over a gRPC hop even when the trailer is lost, for every status text
-- with no class stated on the result.
pub from_grpc-to_grpc_class :
    (s : String) → Status.is_successful (from_grpc (to_grpc s none) none) ≡ Status.is_successful s
unfolding from_grpc
from_grpc-to_grpc_class s = elim (Bool-cases (Status.is_successful s)) [
  | inl success ↦ rw (to_grpc_success s none success, success) class_of_ok
  | inr failure ↦ elim (Option-cases (get s forward)) [
    | inl missing ↦ rw (to_grpc_unlisted s none failure missing, failure) class_of_internal
    | inr (c, found) ↦
        rw (to_grpc_listed s none c failure found, failure) (class_of_forward s c found)
  ]
]
