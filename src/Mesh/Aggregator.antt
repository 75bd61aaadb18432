-- ===== src/Mesh/Aggregator.antt =====
-- packages/benzene-mesh/benzene/mesh/issues.py: an issue, its wire form, and the aggregator, which
-- counts failures by fingerprint until a flush. Its record and flush are methods on the aggregator.
pub mod Seen
pub mod Window
use benzene_python.Prelude.{
  ℕ, suc, ◌+◌, String, ◌≡◌, Bool, true, false, not, ◌||◌, Option, none, some, List, [], ◌∷◌, ◌++◌,
  map, length, if◌then◌else◌, is_some, ◌==◌, text_key, option_key, pair_key, ltb,
}
use benzene_python.Dict.{Dict, get, put, has_key, values}
use benzene_python.Json.{Json, integer, text, array, object, Items, nil, cons, Members, end, member}
use benzene_python.Results.Errors.{ErrorLike, coerce, text_member}
use benzene_python.Mesh.Issues.{
  error_payloads, IssueError, Pair, classify, issue_fingerprint, or_none, or_else, amount,
  says_nothing, to_entry, merge_issue_errors, max_exemplars, max_pending_issue_errors,
}
use benzene_python.Mesh.Issues

pub record Issue : Type 0 where
  pub fingerprint : String
  pub classification : String
  pub service : String
  pub topic : String
  pub status : String
  pub version : String
  pub transport : Option String
  pub exception_type : Option String
  pub count : ℕ
  pub first_seen : Option String
  pub last_seen : Option String
  pub exemplar_trace_ids : List String
  pub resolution_hint : Option String
  pub errors : List IssueError

abbrev pub text_items : List String → Items
text_items [] = nil
text_items (s ∷ ss) = cons (text s) (text_items ss)

abbrev pub exemplars_member : List String → Members → Members
exemplars_member [] rest = rest
exemplars_member (t ∷ ts) rest = member "exemplarTraceIds" (array (text_items (t ∷ ts))) rest

abbrev pub errors_member : List IssueError → Members
errors_member [] = end
errors_member (e ∷ es) = member "errors" (array (error_payloads (e ∷ es))) end

unfoldable pub to_payload : Issue → Members
to_payload i = member "fingerprint" (text i.fingerprint) (
    member "classification" (text i.classification) (
      member "service" (text i.service) (
        member "topic" (text i.topic) (
          member "status" (text i.status) (
            member "count" (integer i.count) (
              text_member "version" (or_none (some i.version)) (
                text_member "transport" i.transport (
                  text_member "exceptionType" i.exception_type (
                    text_member "firstSeen" i.first_seen (
                      text_member "lastSeen" i.last_seen (
                        text_member "resolutionHint" i.resolution_hint (
                          exemplars_member i.exemplar_trace_ids (errors_member i.errors)))))))))))))

pub record IssueBatch : Type 0 where
  pub service : String
  pub issues : List Issue

abbrev pub issue_payloads : List Issue → Items
issue_payloads [] = nil
issue_payloads (i ∷ is) = cons (object (to_payload i)) (issue_payloads is)

unfoldable pub batch_payload : IssueBatch → Members
batch_payload b =
    member "service" (text b.service) (member "issues" (array (issue_payloads b.issues)) end)

pub record IssueAggregator : Type 0 where
  pub service : String
  pub issues : Dict String Issue
  -- by fingerprint, the counts of the window
  pub errors : Dict String (Dict Pair ℕ)

unfoldable pub create : String → IssueAggregator
create service = record { service = service; issues = []; errors = [] }

-- the arguments of `record`
pub record Failure : Type 0 where
  pub topic : String
  pub status : String
  pub version : String
  pub transport : Option String
  pub exception_type : Option String
  pub trace_id : Option String
  pub resolution_hint : Option String
  pub at : Option String
  pub errors : List ErrorLike

-- `{}` for a fingerprint without counts
abbrev pub or_no_counts : Option (Dict Pair ℕ) → Dict Pair ℕ
or_no_counts none = []
or_no_counts (some d) = d

abbrev pub with_exemplar : Option String → List String → List String
with_exemplar none ts = ts
with_exemplar (some t) ts = if ltb (length ts) max_exemplars then ts ++ t ∷ [] else ts

unfoldable pub observe : Failure → String → Issue → Issue
observe f when i = record i {
  count = suc (i.count);
  last_seen = some when;
  exemplar_trace_ids = with_exemplar (or_none f.trace_id) i.exemplar_trace_ids;
}

-- an error with neither member says nothing, and a new pair is not admitted past the bound
unfoldable pub count_error : Pair → Dict Pair ℕ → Dict Pair ℕ
count_error pair pending =
    if says_nothing pair
    then pending
    else if has_key pair pending || ltb (length pending) max_pending_issue_errors
    then put pair (suc (amount (get pair pending))) pending
    else pending

-- Python's `str`, the digest of a text and the time of a call without `at` are parameters.
module _ (str : Json → String) (digest : String → String) where
  unfoldable pub fingerprint_of : String → Failure → String
  fingerprint_of service f =
      issue_fingerprint digest service f.topic f.version (classify f.status f.exception_type)
        (or_else f.exception_type f.status)

  unfoldable pub new_issue : String → Failure → String → Issue
  new_issue service f when = record {
    fingerprint = fingerprint_of service f;
    classification = classify f.status f.exception_type;
    service = service;
    topic = f.topic;
    status = f.status;
    version = f.version;
    transport = f.transport;
    exception_type = f.exception_type;
    count = 0;
    first_seen = some when;
    last_seen = some when;
    exemplar_trace_ids = [];
    resolution_hint = f.resolution_hint;
    errors = [];
  }

  abbrev pub issue_or_new : String → Failure → String → Option Issue → Issue
  issue_or_new service f when none = new_issue service f when
  issue_or_new service f when (some i) = i

  unfoldable pub count_errors : List ErrorLike → Dict Pair ℕ → Dict Pair ℕ
  count_errors [] pending = pending
  count_errors (e ∷ es) pending =
      count_errors es
        (count_error (or_none (coerce str e).field, or_none (coerce str e).code) pending)

  unfoldable pub record_failure : Failure → String → IssueAggregator → Issue × IssueAggregator
  record_failure f now a =
      let fingerprint = fingerprint_of a.service f in
      let when = or_else f.at now in
      let issue = observe f when (issue_or_new a.service f when (get fingerprint a.issues)) in
      (
        issue,
        record a {
          issues = put fingerprint issue a.issues;
          errors =
              put fingerprint (count_errors f.errors (or_no_counts (get fingerprint a.errors)))
                a.errors;
        },
      )

abbrev pub with_errors : Dict String (Dict Pair ℕ) → String × Issue → Issue
with_errors errors p = record (p.1) {
  errors = merge_issue_errors [] (map to_entry (or_no_counts (get p.0 errors)));
}

unfoldable pub flush : IssueAggregator → IssueBatch × IssueAggregator
flush a = (
  record { service = a.service; issues = map (with_errors a.errors) a.issues },
  record a { issues = []; errors = [] },
)
