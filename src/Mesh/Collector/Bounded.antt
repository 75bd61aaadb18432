-- ===== src/Mesh/Collector/Bounded.antt =====
-- The bounds on a stored issue, which every part of a merge keeps.
use benzene_python.Prelude.{
  ℤ, ◌+ℤ◌, ℕ, ◌-◌, ◌≤◌, String, ◌≡◌, refl, ap, inl, inr, Bool, false, not, Option, some, List, [],
  ◌∷◌, ◌++◌, map, length, length-take, length-drop, select, arith, if◌then◌else◌, contains, ◌==◌,
  text_key, sorted_by, Bool-cases, Option-cases,
}
use benzene_python.Effect.{Outcome, lift, look, change, ◌>>=◌, ◌>>◌}
use benzene_python.Effect.Keeps.{Keeps, Keeps-bind, Keeps-seq}
use benzene_python.Dict.{Dict, get, put}
use benzene_python.Dict.Laws.{get-put, get-remove}
use benzene_python.Json.{integer, Json, array, items, to_items}
use benzene_python.Mesh.Issues.{
  error_payloads, IssueError, decode_item, decode_issue_errors, kept, merge_issue_errors, tally,
  to_entry, issue_error_order,
}
use benzene_python.Mesh.Collector.Python.{from_ℤ, is_none, Python, or_null, or_default}
use benzene_python.Mesh.Collector.Merge.{
  Step, aggregated_issue_fields, newest, with_errors, merge_errors, latest_wins, add_count,
  add_exemplars, widen, update_issue, first_issue, held, is_among, or_value, safe_int,
}

-- an array of at most three
abbrev pub IsShort : Option Json → Type 0
IsShort (some (array vs)) = length (items vs) ≤ 3
IsShort _ = ⊥

-- At most three exemplars, and at most ten entries of error detail.
abbrev pub Bounded : Dict String Json → Type 0
Bounded issue =
    IsShort (get "exemplarTraceIds" issue)
    × (length (decode_issue_errors (or_null (get "errors" issue))) ≤ 10)

Bounded-put :
    (k : String) (v : Json) (issue : Dict String Json)
    → (k == "exemplarTraceIds") ≡ false
    → (k == "errors") ≡ false
    → Bounded issue
    → Bounded (put k v issue)
Bounded-put k v issue a b h =
    rw (get-put k "exemplarTraceIds" v issue, get-put k "errors" v issue, a, b) h

latest_wins-Bounded :
    (issue existing : Dict String Json) → Bounded existing → Bounded (latest_wins issue existing)
unfolding latest_wins
latest_wins-Bounded [] existing h = h
latest_wins-Bounded ((k, v) ∷ issue) existing h =
    elim (Bool-cases (contains k aggregated_issue_fields)) [
      | inl aggregated ↦ rw aggregated (latest_wins-Bounded issue existing h)
      | inr plain ↦ rw plain (
          latest_wins-Bounded issue (put k v existing) (
            Bounded-put k v existing
              (ground (
                arith,
                text_key.same_iff k "exemplarTraceIds",
                text_key.same_iff "exemplarTraceIds" k,
              ))
              (ground (arith, text_key.same_iff k "errors", text_key.same_iff "errors" k)) h))
    ]

pub items-to_items : (vs : List Json) → items (to_items vs) ≡ vs
items-to_items [] = refl
items-to_items (v ∷ vs) = ap (λ (ws : List Json). v ∷ ws) (items-to_items vs)

length-newest : (n : ℕ) (vs : List Json) → length (newest n vs) ≤ n
length-newest n vs = omega (arith, length-drop (length vs - n) vs)

Bounded-exemplars :
    (vs : List Json) (issue : Dict String Json)
    → length (decode_issue_errors (or_null (get "errors" issue))) ≤ 10
    → Bounded (put "exemplarTraceIds" (array (to_items (newest 3 vs))) issue)
Bounded-exemplars vs issue h =
    rw
      (
        get-put "exemplarTraceIds" "exemplarTraceIds" (array (to_items (newest 3 vs))) issue,
        get-put "exemplarTraceIds" "errors" (array (to_items (newest 3 vs))) issue,
      )
      (rw (items-to_items (newest 3 vs)) (length-newest 3 vs), h)

length-kept : (vs : List Json) → length (kept (map decode_item vs)) ≤ length vs
length-kept [] = omega arith
length-kept (v ∷ vs) = elim (Option-cases (decode_item v)) [
  | inl skipped ↦ rw skipped (omega (arith, length-kept vs))
  | inr (e, found) ↦ rw found (omega (arith, length-kept vs))
]

length-error_payloads : (es : List IssueError) → length (items (error_payloads es)) ≡ length es
length-error_payloads [] = refl
length-error_payloads (e ∷ es) = omega (arith, length-error_payloads es)

with_errors-Bounded :
    (es : List IssueError) (issue : Dict String Json)
    → length es ≤ 10
    → IsShort (get "exemplarTraceIds" issue)
    → Bounded (with_errors es issue)
unfolding decode_issue_errors
with_errors-Bounded [] issue le h =
    rw (get-remove "errors" "exemplarTraceIds" issue, get-remove "errors" "errors" issue)
      (h, omega arith)
with_errors-Bounded (e ∷ es) issue le h =
    rw
      (
        get-put "errors" "exemplarTraceIds" (array (error_payloads (e ∷ es))) issue,
        get-put "errors" "errors" (array (error_payloads (e ∷ es))) issue,
      )
      (
        h,
        omega (
          arith,
          le,
          length-kept (items (error_payloads (e ∷ es))),
          length-error_payloads (e ∷ es),
        ),
      )

length-merge : (existing delta : List IssueError) → length (merge_issue_errors existing delta) ≤ 10
unfolding merge_issue_errors
length-merge existing delta = omega (
  arith,
  length-take 10 (sorted_by issue_error_order (map to_entry (tally (existing ++ delta) []))),
)

merge_errors-Bounded :
    (incoming : Json) (issue : Dict String Json)
    → IsShort (get "exemplarTraceIds" issue)
    → Bounded (merge_errors incoming issue)
unfolding merge_errors
merge_errors-Bounded incoming issue h =
    with_errors-Bounded _ issue
      (length-merge (decode_issue_errors (or_null (get "errors" issue)))
        (decode_issue_errors incoming))
      h

module _ (py : Python) where
  add_count-Bounded : (issue : Dict String Json) → Keeps Bounded (add_count py issue)
  unfolding add_count
  add_count-Bounded issue =
      let last : ℤ → ℤ → Step Unit = λ a b. change (put "count" (from_ℤ (a +ℤ b))) in
      let second : ℤ → Step Unit =
        λ a. lift (safe_int py (or_default (integer 0) (get "count" issue))) >>= last a in
      let first : Json → Step Unit = λ before. lift (safe_int py before) >>= second in
      Keeps-bind Bounded (look (λ existing. or_default (integer 0) (get "count" existing))) first
        (λ w h. h)
        (λ before.
          Keeps-bind Bounded (lift (safe_int py before)) second (λ w h. h)
            (λ a.
              Keeps-bind Bounded (lift (safe_int py (or_default (integer 0) (get "count" issue))))
                (last a) (λ w h. h) (λ b w h. Bounded-put "count" (from_ℤ (a +ℤ b)) w refl refl h)))

  add_exemplars-Bounded : (incoming : List Json) → Keeps Bounded (add_exemplars py incoming)
  unfolding add_exemplars
  add_exemplars-Bounded incoming =
      let last : List Json → Step Unit = λ old. change (
        put "exemplarTraceIds"
          (array (to_items (newest 3 (old ++ select (λ v. not (is_among py v old)) incoming))))) in
      let first : Outcome (List Json) → Step Unit = λ o. lift o >>= last in
      Keeps-bind Bounded (look (λ existing. held py (get "exemplarTraceIds" existing))) first
        (λ w h. h)
        (λ o.
          Keeps-bind Bounded (lift o) last (λ w h. h)
            (λ old w h.
              Bounded-exemplars (old ++ select (λ v. not (is_among py v old)) incoming) w h.1))

  widen-Bounded :
      (wins : Json → Json → Outcome Bool) (k : String) (v : Json)
      → (k == "exemplarTraceIds") ≡ false
      → (k == "errors") ≡ false
      → Keeps Bounded (widen py wins k v)
  unfolding widen
  widen-Bounded wins k v a b = elim (Bool-cases (is_none v)) [
    | inl absent ↦ rw absent (λ w h. h)
    | inr given ↦
        let last : Json → Bool → Step Unit = λ old won. change (put k (if won then v else old)) in
        let first : Json → Step Unit = λ old. lift (wins v old) >>= last old in
        rw given (
          Keeps-bind Bounded (look (λ existing. or_value py (get k existing) v)) first (λ w h. h)
            (λ old.
              Keeps-bind Bounded (lift (wins v old)) (last old) (λ w h. h)
                (λ won w h. Bounded-put k (if won then v else old) w a b h)))
  ]

  pub update_issue-Bounded :
      (issue : Dict String Json) (incoming : List Json)
      → Keeps Bounded (update_issue py issue incoming)
  unfolding update_issue
  update_issue-Bounded issue incoming =
      let m1 : Step Unit = change (latest_wins issue) in
      let m2 = m1 >> add_count py issue in
      let m3 = m2 >> add_exemplars py incoming in
      let m4 : Step Unit = m3 >> change (merge_errors (or_null (get "errors" issue))) in
      let m5 = m4 >> widen py py.less "firstSeen" (or_null (get "firstSeen" issue)) in
      Keeps-seq Bounded m5
        (widen py (λ v a. py.less a v) "lastSeen" (or_null (get "lastSeen" issue)))
        (Keeps-seq Bounded m4 (widen py py.less "firstSeen" (or_null (get "firstSeen" issue)))
          (Keeps-seq Bounded m3 (change (merge_errors (or_null (get "errors" issue))))
            (Keeps-seq Bounded m2 (add_exemplars py incoming)
              (Keeps-seq Bounded m1 (add_count py issue) (latest_wins-Bounded issue)
                (add_count-Bounded issue))
              (add_exemplars-Bounded incoming))
            (λ w h. merge_errors-Bounded _ w h.0))
          (widen-Bounded py.less "firstSeen" _ refl refl))
        (widen-Bounded (λ v a. py.less a v) "lastSeen" _ refl refl)

  pub first_issue-Bounded :
      (issue : Dict String Json) (incoming : List Json) (z : ℤ)
      → Bounded (first_issue py issue incoming z)
  unfolding first_issue
  first_issue-Bounded issue incoming z =
      let base = put "count" (from_ℤ z) issue in
      let short = put "exemplarTraceIds" (array (to_items (newest 3 incoming))) base in
      merge_errors-Bounded _ _ (
        rw
          (
            get-remove "errors" "exemplarTraceIds" short,
            get-put "exemplarTraceIds" "exemplarTraceIds" (array (to_items (newest 3 incoming)))
                base,
            items-to_items (newest 3 incoming),
          )
          (length-newest 3 incoming))
