-- ===== src/Mesh/Collector/Merge.antt =====
-- Issues merged into the catalog by fingerprint. An issue is the dict that it arrived as; it is
-- changed in place, so that what a merge did before it raised stays done.
use benzene_python.Prelude.{
  ℕ, ◌-◌, ℤ, pos, ◌+ℤ◌, String, Bool, not, Option, none, some, List, [], ◌∷◌, ◌++◌, any, select,
  drop, length, if◌then◌else◌, contains, text_key,
}
use benzene_python.Effect.{
  lift, after, Coroutine, Outcome, error, cancelled, returned, raised, pure, look, change, ◌>>=◌,
  ◌>>◌,
}
use benzene_python.Dict.{Dict, get, put, remove}
use benzene_python.Json.{nil, Json, integer, array, truthy, to_items}
use benzene_python.Mesh.Issues.{error_payloads, IssueError, decode_issue_errors, merge_issue_errors}
use benzene_python.Mesh.Collector.Python.{
  Python, iterate, from_ℤ, or_null, or_default, is_none, is_caught,
}
use benzene_python.Mesh.Collector.{Collector, Method}

abbrev pub max_exemplars : ℕ
max_exemplars = 3

abbrev pub aggregated_issue_fields : List String
aggregated_issue_fields = "count" ∷ "errors" ∷ "exemplarTraceIds" ∷ "firstSeen" ∷ "lastSeen" ∷ []

-- the issue that a merge works on
abbrev pub Step : Type 0 → Type 0
Step A = Coroutine (Dict String Json) A

-- `xs[-n:]`
abbrev pub newest : ℕ → List Json → List Json
newest n xs = drop (length xs - n) xs

abbrev pub with_errors : List IssueError → Dict String Json → Dict String Json
with_errors [] merged = remove "errors" merged
with_errors (e ∷ es) merged = put "errors" (array (error_payloads (e ∷ es))) merged

-- `_merge_issue_errors`
unfoldable pub merge_errors : Json → Dict String Json → Dict String Json
merge_errors incoming merged =
    with_errors
      (merge_issue_errors (decode_issue_errors (or_null (get "errors" merged)))
        (decode_issue_errors incoming))
      merged

unfoldable pub latest_wins : Dict String Json → Dict String Json → Dict String Json
latest_wins [] existing = existing
latest_wins ((k, v) ∷ issue) existing =
    latest_wins issue (if contains k aggregated_issue_fields then existing else put k v existing)

-- what int cannot read is 0
abbrev pub read_int : Outcome ℤ → Outcome ℤ
read_int (returned z) = returned z
read_int (raised cancelled) = raised cancelled
read_int (raised (error name s)) =
    if is_caught name then returned (pos 0) else raised (error name s)

module _ (py : Python) where
  -- `_safe_int`
  unfoldable pub safe_int : Json → Outcome ℤ
  safe_int v = read_int (py.int v)

  abbrev pub is_among : Json → List Json → Bool
  is_among v = any (λ w. py.equal w v)

  -- `existing["exemplarTraceIds"]`, which is joined to a list
  abbrev pub held : Option Json → Outcome (List Json)
  held none = raised (error "KeyError" "'exemplarTraceIds'")
  held (some (array vs)) = iterate (array vs)
  held (some v) = raised (error "TypeError" "can only concatenate list")

  unfoldable pub add_count : Dict String Json → Step Unit
  add_count issue = look (λ existing. or_default (integer 0) (get "count" existing)) >>= λ before.
      lift (safe_int before) >>= λ a.
      lift (safe_int (or_default (integer 0) (get "count" issue))) >>= λ b.
      change (put "count" (from_ℤ (a +ℤ b)))

  unfoldable pub add_exemplars : List Json → Step Unit
  add_exemplars incoming = look (λ existing. held (get "exemplarTraceIds" existing)) >>= λ o.
      lift o >>= λ old. change (
        put "exemplarTraceIds" (
          array
            (to_items (newest max_exemplars (old ++ select (λ v. not (is_among v old)) incoming)))))

  -- `existing.get(field) or value`
  abbrev pub or_value : Option Json → Json → Json
  or_value none value = value
  or_value (some v) value = if truthy v then v else value

  -- `min(a, value)` and `max(a, value)` of the span: `value` where the order says so, else `a`
  unfoldable pub widen : (Json → Json → Outcome Bool) → String → Json → Step Unit
  widen wins field value =
      if is_none value
      then pure tt
      else look (λ existing. or_value (get field existing) value) >>= λ a.
          lift (wins value a) >>= λ b. change (put field (if b then value else a))

  unfoldable pub update_issue : Dict String Json → List Json → Step Unit
  update_issue issue incoming =
      change (latest_wins issue)
      >> add_count issue
      >> add_exemplars incoming
      >> change (merge_errors (or_null (get "errors" issue)))
      >> widen py.less "firstSeen" (or_null (get "firstSeen" issue))
      >> widen (λ v a. py.less a v) "lastSeen" (or_null (get "lastSeen" issue))

  -- the entry of an issue that is new
  unfoldable pub first_issue : Dict String Json → List Json → ℤ → Dict String Json
  first_issue issue incoming count = merge_errors (or_null (get "errors" issue)) (
      remove "errors" (
        put "exemplarTraceIds" (array (to_items (newest max_exemplars incoming)))
          (put "count" (from_ℤ count) issue)))

  abbrev pub store_issue : String → Dict String Json → Collector → Collector
  store_issue fingerprint issue c = record c { issues = put fingerprint issue c.issues }

  -- the issue of a fingerprint, and a new one where there is none
  abbrev pub merge_into :
      String → Dict String Json → List Json → Option (Dict String Json) → Method Unit
  merge_into fingerprint issue incoming none c =
      after (safe_int (or_default (integer 0) (get "count" issue)), c)
        (λ count. change (store_issue fingerprint (first_issue issue incoming count)))
  merge_into fingerprint issue incoming (some existing) c =
      let (o, updated) = update_issue issue incoming existing in
      (o, store_issue fingerprint updated c)

  -- `_merge_issue`
  unfoldable pub merge_issue : String → Dict String Json → Method Unit
  merge_issue fingerprint issue =
      lift (iterate (or_default (array nil) (get "exemplarTraceIds" issue))) >>= λ incoming.
      look (λ c. get fingerprint c.issues) >>= λ existing.
      merge_into fingerprint issue incoming existing
