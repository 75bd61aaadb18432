-- ===== src/Http/Status/Classes.antt =====
-- What the two status tables of the HTTP binding preserve, for every status text.
use benzene_python.Prelude.{
  ℕ, String, Bool, true, false, ◌||◌, Option, none, some, ◌≡◌, ◌≤◌, refl, arith, inl, inr, contains,
  Bool-cases, Option-cases, All, text_key, number_key, if◌then◌else◌,
}
use benzene_python.Dict.{get, has_key}
use benzene_python.Results.Status
use benzene_python.Results.Problems.{Row, problem_http_status, registry}
use benzene_python.Dict.Members.{get-All, contains-All}
use benzene_python.Http.Status.{benzene_to_http, flag, to_http, from_http}

success_rows : All (λ s. has_key s benzene_to_http ≡ true) Status.success_statuses
unfolding get
success_rows = ground arith

class_rows :
    All (λ p. Status.is_successful (from_http p.1) ≡ Status.is_successful p.0) benzene_to_http
unfolding from_http Status.is_successful get
class_rows = ground arith

unlisted_fails : (s : String) → get s benzene_to_http ≡ none → Status.is_successful s ≡ false
unfolding Status.is_successful
unlisted_fails s h = elim (Bool-cases (Status.is_successful s)) [
  | inl success ↦
      let listed : has_key s benzene_to_http ≡ true =
        contains-All (λ x. has_key x benzene_to_http ≡ true) s Status.success_statuses success_rows
          success in
      ground arith
  | inr failure ↦ failure
]

unlisted_code_fails : Status.is_successful (from_http 500) ≡ false
unfolding Status.is_successful from_http get
unlisted_code_fails = refl

listed_code :
    (s : String) (b : Option Bool) (c : ℕ) → get s benzene_to_http ≡ some c → to_http s b ≡ c
unfolding to_http
listed_code s b c h = ground arith

unlisted_code :
    (s : String) (b : Option Bool)
    → get s benzene_to_http ≡ none
    → to_http s b ≡ (if flag b then 200 else 500)
unfolding to_http
unlisted_code s b h = ground arith

-- A status keeps its class over the HTTP hop: for every status text, the status that a client reads
-- back from the code is a success exactly when the status sent was (with no class stated on the
-- result).
pub from_http-to_http_class :
    (s : String) → Status.is_successful (from_http (to_http s none)) ≡ Status.is_successful s
from_http-to_http_class s = elim (Option-cases (get s benzene_to_http)) [
  | inl missing ↦ rw (unlisted_code s none missing, unlisted_fails s missing) unlisted_code_fails
  | inr (code, found) ↦ rw (listed_code s none code found) (
      get-All (λ x c. Status.is_successful (from_http c) ≡ Status.is_successful x) s benzene_to_http
        class_rows found)
]

abbrev pub InClass : Bool → ℕ → Type 0
InClass true code = (200 ≤ code) × (code ≤ 204)
InClass false code = (400 ≤ code) × (code ≤ 504)

range_rows : All (λ p. InClass (Status.is_successful p.0) p.1) benzene_to_http
unfolding Status.is_successful
range_rows = omega arith

-- The code sent for a status lies in its class: 200 to 204 for a success and 400 to 504 for every
-- other text, when no class is stated on the result.
pub to_http-InClass : (s : String) → InClass (Status.is_successful s) (to_http s none)
to_http-InClass s = elim (Option-cases (get s benzene_to_http)) [
  | inl missing ↦ rw (unlisted_code s none missing, unlisted_fails s missing) (omega arith)
  | inr (code, found) ↦
      rw (listed_code s none code found)
        (get-All (λ x c. InClass (Status.is_successful x) c) s benzene_to_http range_rows found)
]

failure_rows : All (λ s. (b : Option Bool) → from_http (to_http s b) ≡ s) Status.failure_statuses
unfolding to_http from_http get
failure_rows = ground arith

-- Every failure status of the vocabulary is read back exactly from its HTTP code, whatever class is
-- stated on the result.
pub from_http-to_http_failure :
    (s : String) (b : Option Bool)
    → contains s Status.failure_statuses ≡ true
    → from_http (to_http s b) ≡ s
from_http-to_http_failure s b h =
    contains-All (λ x. (c : Option Bool) → from_http (to_http x c) ≡ x) s Status.failure_statuses
      failure_rows h b

problem_rows : All (λ p. to_http p.0 none ≡ p.1.http) registry
unfolding to_http get
problem_rows = ground arith

covered_rows : All (λ p. (Status.is_successful p.0 || has_key p.0 registry) ≡ true) benzene_to_http
unfolding Status.is_successful get
covered_rows = ground arith

registered_code :
    (s : String) (r : Row) → get s registry ≡ some r → problem_http_status s ≡ to_http s none
unfolding problem_http_status
registered_code s r found =
    let row : to_http s none ≡ r.http =
      get-All (λ x (q : Row). to_http x none ≡ q.http) s registry problem_rows found in
    ground arith

unregistered_code :
    (s : String)
    → get s registry ≡ none
    → Status.is_successful s ≡ false
    → problem_http_status s ≡ to_http s none
unfolding problem_http_status
unregistered_code s missing failure = elim (Option-cases (get s benzene_to_http)) [
  | inl unlisted ↦ ground (arith, unlisted_code s none unlisted)
  | inr (code, listed) ↦
      let covered : (Status.is_successful s || has_key s registry) ≡ true =
        get-All (λ x (c : ℕ). (Status.is_successful x || has_key x registry) ≡ true) s
          benzene_to_http covered_rows listed in
      ground arith
]

-- The problem registry and the HTTP table agree: for every status text that is no success, the code
-- in the registry is the code that the HTTP binding sends.
pub problem_http_status-to_http :
    (s : String) → Status.is_successful s ≡ false → problem_http_status s ≡ to_http s none
problem_http_status-to_http s failure = elim (Option-cases (get s registry)) [
  | inl missing ↦ unregistered_code s missing failure
  | inr (row, found) ↦ registered_code s row found
]
