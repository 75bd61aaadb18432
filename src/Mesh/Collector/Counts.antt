-- ===== src/Mesh/Collector/Counts.antt =====
-- The count of a stored issue: the sum of the deltas that were merged into it.
use benzene_python.Prelude.{
  ℤ, pos, ◌+ℤ◌, String, ◌≡◌, refl, sym, ap, ◌∙◌, inl, inr, Bool, false, not, Option, none, some,
  List, [], ◌∷◌, ◌++◌, select, arith, if◌then◌else◌, contains, ◌==◌, text_key, Bool-cases,
}
use benzene_python.Effect.{Outcome, Fault, returned, raised, lift, after, look, change, ◌>>=◌, ◌>>◌}
use benzene_python.Effect.Keeps.{Keeps, Keeps-bind, Keeps-seq, Outcome-cases}
use benzene_python.Dict.{Dict, get, put}
use benzene_python.Dict.Laws.{get-put, get-put_self, get-remove}
use benzene_python.Json.{Json, integer, array, to_items}
use benzene_python.Mesh.Issues.{IssueError, error_payloads, decode_issue_errors, merge_issue_errors}
use benzene_python.Mesh.Collector.Python.{Python, from_ℤ, or_null, or_default, is_none}
use benzene_python.Mesh.Collector.Merge.{
  Step, aggregated_issue_fields, newest, with_errors, merge_errors, latest_wins, add_count,
  add_exemplars, widen, update_issue, first_issue, held, is_among, or_value, safe_int,
}

-- the counter of an issue reads as a number
abbrev pub Counts : ℤ → Dict String Json → Type 0
Counts z issue = get "count" issue ≡ some (from_ℤ z)

Counts-put :
    (z : ℤ) (k : String) (v : Json) (issue : Dict String Json)
    → (k == "count") ≡ false
    → Counts z issue
    → Counts z (put k v issue)
Counts-put z k v issue other h = rw (get-put k "count" v issue, other) h

with_errors-Counts :
    (z : ℤ) (es : List IssueError) (issue : Dict String Json)
    → Counts z issue
    → Counts z (with_errors es issue)
with_errors-Counts z [] issue h = rw (get-remove "errors" "count" issue) h
with_errors-Counts z (e ∷ es) issue h =
    Counts-put z "errors" (array (error_payloads (e ∷ es))) issue refl h

merge_errors-Counts :
    (z : ℤ) (incoming : Json)
    → (issue : Dict String Json) → Counts z issue
    → Counts z (merge_errors incoming issue)
unfolding merge_errors
merge_errors-Counts z incoming issue h =
    with_errors-Counts z
      (merge_issue_errors (decode_issue_errors (or_null (get "errors" issue)))
        (decode_issue_errors incoming))
      issue h

get-latest_wins :
    (issue existing : Dict String Json)
    → get "count" (latest_wins issue existing) ≡ get "count" existing
unfolding latest_wins
get-latest_wins [] existing = refl
get-latest_wins ((k, v) ∷ issue) existing = elim (Bool-cases (contains k aggregated_issue_fields)) [
  | inl aggregated ↦ rw aggregated (get-latest_wins issue existing)
  | inr plain ↦
      let other : (k == "count") ≡ false =
        ground (arith, text_key.same_iff k "count", text_key.same_iff "count" k) in
      rw plain
        (get-latest_wins issue (put k v existing) ∙ rw (get-put k "count" v existing, other) refl)
]

-- the number that int reads, or 0
abbrev pub value_of : Outcome ℤ → ℤ
value_of (returned z) = z
value_of (raised x) = pos 0

module _ (py : Python) where
  -- `_safe_int(issue.get("count", 0))`
  abbrev pub delta : Dict String Json → ℤ
  delta issue = value_of (safe_int py (or_default (integer 0) (get "count" issue)))

  -- the count of a fingerprint in the catalog, 0 where it has no issue
  abbrev pub count_of : Option (Dict String Json) → ℤ
  count_of none = pos 0
  count_of (some issue) = delta issue

  add_exemplars-Counts :
      (z : ℤ) (incoming : List Json) → Keeps (Counts z) (add_exemplars py incoming)
  unfolding add_exemplars
  add_exemplars-Counts z incoming =
      let last : List Json → Step Unit = λ old. change (
        put "exemplarTraceIds"
          (array (to_items (newest 3 (old ++ select (λ v. not (is_among py v old)) incoming))))) in
      let first : Outcome (List Json) → Step Unit = λ o. lift o >>= last in
      Keeps-bind (Counts z) (look (λ existing. held py (get "exemplarTraceIds" existing))) first
        (λ w h. h)
        (λ o.
          Keeps-bind (Counts z) (lift o) last (λ w h. h)
            (λ old w h. Counts-put z "exemplarTraceIds" _ w refl h))

  widen-Counts :
      (z : ℤ) (wins : Json → Json → Outcome Bool) (k : String) (v : Json)
      → (k == "count") ≡ false
      → Keeps (Counts z) (widen py wins k v)
  unfolding widen
  widen-Counts z wins k v other = elim (Bool-cases (is_none v)) [
    | inl absent ↦ rw absent (λ w h. h)
    | inr given ↦
        let last : Json → Bool → Step Unit = λ old won. change (put k (if won then v else old)) in
        let first : Json → Step Unit = λ old. lift (wins v old) >>= last old in
        rw given (
          Keeps-bind (Counts z) (look (λ existing. or_value py (get k existing) v)) first (λ w h. h)
            (λ old.
              Keeps-bind (Counts z) (lift (wins v old)) (last old) (λ w h. h)
                (λ won w h. Counts-put z k (if won then v else old) w other h)))
  ]

  -- A merge that reads both counts leaves their sum.
  add_count-Counts :
      (issue existing : Dict String Json) (a b : ℤ)
      → safe_int py (or_default (integer 0) (get "count" existing)) ≡ returned a
      → safe_int py (or_default (integer 0) (get "count" issue)) ≡ returned b
      → add_count py issue existing ≡ (returned tt, put "count" (from_ℤ (a +ℤ b)) existing)
  unfolding add_count
  add_count-Counts issue existing a b read_a read_b = rw (read_a, read_b) refl

  module _ (int_ℤ : (z : ℤ) → py.int (from_ℤ z) ≡ returned z) where
    safe_int-ℤ : (z : ℤ) → safe_int py (from_ℤ z) ≡ returned z
    unfolding safe_int
    safe_int-ℤ z = rw (int_ℤ z) refl

    pub delta-Counts : (z : ℤ) (issue : Dict String Json) → Counts z issue → delta issue ≡ z
    delta-Counts z issue h = rw (h, safe_int-ℤ z) refl

    -- the parts of a merge, and what follows the counting
    module _ (issue : Dict String Json) (incoming : List Json) where
      abbrev first_seen : Step Unit
      first_seen = widen py py.less "firstSeen" (or_null (get "firstSeen" issue))

      abbrev last_seen : Step Unit
      last_seen = widen py (λ v a. py.less a v) "lastSeen" (or_null (get "lastSeen" issue))

      abbrev errors_step : Step Unit
      errors_step = change (merge_errors (or_null (get "errors" issue)))

      abbrev tail : Step Unit
      tail = add_exemplars py incoming >> errors_step >> first_seen >> last_seen

      tail-Counts : (z : ℤ) → Keeps (Counts z) tail
      tail-Counts z =
          let m1 = add_exemplars py incoming in
          let m2 = m1 >> errors_step in
          let m3 = m2 >> first_seen in
          Keeps-seq (Counts z) m3 last_seen
            (Keeps-seq (Counts z) m2 first_seen
              (Keeps-seq (Counts z) m1 errors_step (add_exemplars-Counts z incoming)
                (merge_errors-Counts z _))
              (widen-Counts z py.less "firstSeen" _ refl))
            (widen-Counts z (λ v a. py.less a v) "lastSeen" _ refl)

      update_after :
          (existing : Dict String Json) (o : Outcome Unit) (w : Dict String Json)
          → add_count py issue (latest_wins issue existing) ≡ (o, w)
          → update_issue py issue incoming existing ≡ after (o, w) (λ _. tail)
      unfolding update_issue
      update_after existing (raised x) w counted =
          ap
            (λ (p : Outcome Unit × Dict String Json).
              after
                (after (after (after p (λ _. add_exemplars py incoming)) (λ _. errors_step))
                  (λ _. first_seen))
                (λ _. last_seen))
            counted
      update_after existing (returned t) w counted =
          ap
            (λ (p : Outcome Unit × Dict String Json).
              after
                (after (after (after p (λ _. add_exemplars py incoming)) (λ _. errors_step))
                  (λ _. first_seen))
                (λ _. last_seen))
            counted

      raised_first :
          (existing : Dict String Json) (x : Fault)
          → safe_int py (or_default (integer 0) (get "count" existing)) ≡ raised x
          → add_count py issue existing ≡ (raised x, existing)
      unfolding add_count
      raised_first existing x failed = rw failed refl

      raised_second :
          (existing : Dict String Json) (a : ℤ) (x : Fault)
          → safe_int py (or_default (integer 0) (get "count" existing)) ≡ returned a
          → safe_int py (or_default (integer 0) (get "count" issue)) ≡ raised x
          → add_count py issue existing ≡ (raised x, existing)
      unfolding add_count
      raised_second existing a x read failed = rw (read, failed) refl

      never_raised :
          (existing : Dict String Json) (x : Fault) (w : Dict String Json)
          → (update_issue py issue incoming existing).0 ≡ returned tt
          → ¬ (add_count py issue (latest_wins issue existing) ≡ (raised x, w))
      never_raised existing x w done counted =
          let first : (update_issue py issue incoming existing).0 ≡ raised x =
            ap (λ (p : Outcome Unit × Dict String Json). p.0)
              (update_after existing (raised x) w counted) in
          ground (arith, first, done)

      pub update_issue-Counts :
          (existing : Dict String Json)
          → (update_issue py issue incoming existing).0 ≡ returned tt
          → delta (update_issue py issue incoming existing).1 ≡ delta existing +ℤ delta issue
      update_issue-Counts existing done =
          let old = latest_wins issue existing in
          let same : delta old ≡ delta existing =
            ap (λ (o : Option Json). value_of (safe_int py (or_default (integer 0) o)))
              (get-latest_wins issue existing) in
          elim (Outcome-cases (safe_int py (or_default (integer 0) (get "count" old)))) [
            | inr (x, failed) ↦
                absurd (never_raised existing x old done (raised_first old x failed))
            | inl (a, read_a) ↦
                elim (Outcome-cases (safe_int py (or_default (integer 0) (get "count" issue)))) [
                  | inr (x, failed) ↦
                      absurd
                        (never_raised existing x old done (raised_second old a x read_a failed))
                  | inl (b, read_b) ↦
                      let counted =
                        update_after existing (returned tt) (put "count" (from_ℤ (a +ℤ b)) old)
                          (add_count-Counts issue old a b read_a read_b) in
                      let kept =
                        tail-Counts (a +ℤ b) (put "count" (from_ℤ (a +ℤ b)) old)
                          (get-put_self "count" (from_ℤ (a +ℤ b)) old) in
                      ap (λ (p : Outcome Unit × Dict String Json). delta p.1) counted
                      ∙ delta-Counts (a +ℤ b) _ kept
                      ∙ ap (λ t. t +ℤ b) (sym (ap value_of read_a) ∙ same)
                      ∙ ap (λ t. delta existing +ℤ t) (sym (ap value_of read_b))
                ]
          ]

    pub first_issue-Counts :
        (issue : Dict String Json) (incoming : List Json) (z : ℤ)
        → Counts z (first_issue py issue incoming z)
    unfolding first_issue
    first_issue-Counts issue incoming z =
        let base = put "count" (from_ℤ z) issue in
        let short = put "exemplarTraceIds" (array (to_items (newest 3 incoming))) base in
        merge_errors-Counts z _ _ (
          rw (get-remove "errors" "count" short)
            (Counts-put z "exemplarTraceIds" _ base refl (get-put_self "count" (from_ℤ z) issue)))
