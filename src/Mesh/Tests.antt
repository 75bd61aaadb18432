-- ===== src/Mesh/Tests.antt =====
-- The issues feed of a service that fails now and then.
mod Fleet
use benzene_python.Prelude.{
  ℕ, String, ◌≡◌, ◌≤◌, refl, ◌⊎◌, true, Option, none, some, List, [], ◌∷◌, ◌++◌, All, Has, Ordered,
  length, text_key, option_key, pair_key, number_key, sorted_by, insert_by,
}
use benzene_python.Dict.{get, put}
use benzene_python.Json.{Json, null, boolean, integer, text, array, object, nil, cons, end, member}
use benzene_python.Results.Errors.{plain, structured, coerce}
use benzene_python.Mesh.Issues.{
  error_payloads, IssueError, classify, issue_fingerprint, decode_item, decode_issue_errors,
  merge_issue_errors, issue_error_order, tally, to_entry,
}
use benzene_python.Mesh.Issues.Totals.{AtLeast, total, merge_issue_errors_totals}
use benzene_python.Mesh.Issues.Wire.{decode-merge}
use benzene_python.Mesh.Aggregator.{
  Failure, create, fingerprint_of, new_issue, observe, count_error, count_errors, record_failure,
  flush,
}
use benzene_python.Mesh.Aggregator.Seen.{Seen, count_all}
use benzene_python.Mesh.Aggregator.Window.{record_all, matching, Reported, flush_window}

classify_runs :
    (classify "bad-request" (some "KeyError") ≡ "validation")
    × (classify "timeout" (some "KeyError") ≡ "exception")
    × (classify "not-found" none ≡ "config-wiring")
    × (classify "timeout" (some "") ≡ "dependency")
    × (classify "conflict" none ≡ "unclassified")
unfolding classify
classify_runs = (refl, refl, refl, refl, refl)

-- a count and a code, a field that is empty, and entries that are skipped
abbrev detail : Json
detail = array (
    cons (object (member "count" (integer 2) (member "code" (text "required") end))) (
      cons
        (object (
          member "count" (integer 3) (member "field" (text "") (member "code" (text "range") end))))
        (cons (object (member "count" (boolean true) (member "code" (text "required") end))) (
          cons (object (member "count" (integer 1) (member "field" (text "") end)))
            (cons null nil)))))

abbrev entry : Option String → Option String → ℕ → IssueError
entry f c n = record { field = f; code = c; count = n }

decode_runs :
    decode_issue_errors detail ≡ entry none (some "required") 2 ∷ entry none (some "range") 3 ∷ []
unfolding decode_issue_errors decode_item get
decode_runs = refl

abbrev before_them : List IssueError
before_them = entry none (some "required") 2 ∷ entry (some "") (some "range") 1 ∷ []

merge_runs :
    merge_issue_errors before_them (entry none (some "range") 3 ∷ entry none none 7 ∷ [])
    ≡ entry none (some "range") 4 ∷ entry none (some "required") 2 ∷ []
unfolding merge_issue_errors tally get put sorted_by insert_by issue_error_order
merge_runs = refl

merge_issue_errors_totals_example :
    let merged = merge_issue_errors before_them (entry none (some "range") 3 ∷ []) in
    All
      (λ e. e.count ≡ total (e.field, e.code) (before_them ++ entry none (some "range") 3 ∷ []))
      merged
    × Ordered AtLeast merged
    × (length merged ≤ 10)
    × (Has (to_entry ((none, some "range"), 4)) merged
        ⊎ ((length merged ≡ 10) × All (λ e. 4 ≤ e.count) merged))
merge_issue_errors_totals_example =
    merge_issue_errors_totals before_them (entry none (some "range") 3 ∷ []) (none, some "range")
      refl refl

decode-merge_example :
    let merged = merge_issue_errors (decode_issue_errors detail) (decode_issue_errors detail) in
    decode_issue_errors (array (error_payloads merged)) ≡ merged
decode-merge_example = decode-merge detail detail

abbrev str_of_text : Json → String
str_of_text (text s) = s
str_of_text v = ""

abbrev digest : String → String
digest s = s

abbrev fails : String → Option String → Option String → Failure
fails status trace at = record {
  topic = "orders:create";
  status = status;
  version = "";
  transport = none;
  exception_type = none;
  trace_id = trace;
  resolution_hint = none;
  at = at;
  errors =
      plain "boom" ∷ structured (record { message = "no"; field = some "id"; code = none }) ∷ [];
}

abbrev window : List Seen
window =
    (fails "timeout" (some "t1") none, "09:00")
    ∷ (fails "conflict" none (some "09:01"), "09:02")
    ∷ (fails "timeout" (some "t2") none, "09:03")
    ∷ []

window_runs :
    let flushed = flush (record_all str_of_text digest window (create "shop")) in
    length flushed.0.issues ≡ 2
unfolding flush record_all create record_failure count_errors count_error coerce observe new_issue
    fingerprint_of issue_fingerprint classify get put
window_runs = refl

flush_window_example :
    let flushed = flush (record_all str_of_text digest window (create "shop")) in
    All
      (λ i. Reported str_of_text digest (matching str_of_text digest "shop" i.fingerprint window) i)
      flushed.0.issues
    × (count_all flushed.0.issues ≡ 3)
    × (flushed.1 ≡ create "shop")
flush_window_example = flush_window str_of_text digest "shop" window
