-- ===== src/Mesh/Aggregator/Window.antt =====
-- A window of the aggregator: what a flush says of the failures recorded since the last one.
use mathlib.Core.Path.{subst}
use mathlib.Core.List.{append-nil, append_assoc}
use benzene_python.Prelude.{
  length-take, sorted_by, ℕ, suc, ◌+◌, ◌≤◌, String, ◌≡◌, refl, sym, ap, ◌∙◌, inl, inr, Bool, true,
  false, Option, none, some, List, [], ◌∷◌, ◌++◌, map, take, length, length-append, select,
  select-append, arith, if◌then◌else◌, ◌==◌, text_key, All, All-Has, map-Has, Bool-cases,
}
use benzene_python.Dict.{Dict, get, put}
use benzene_python.Dict.Laws.{get-put}
use benzene_python.Dict.Unique.{Unique, Unique-put, get-Has}
use benzene_python.Json.{Json}
use benzene_python.Mesh.Issues.{
  Pair, tally, merge_issue_errors, issue_error_order, to_entry, or_none,
}
use benzene_python.Mesh.Aggregator.{
  or_no_counts, Issue, IssueAggregator, create, fingerprint_of, new_issue, issue_or_new,
  with_exemplar, observe, record_failure, with_errors, flush,
}
use benzene_python.Mesh.Aggregator.Seen.{
  Seen, time_of, first_time, last_time, traces, count_all, last_time-snoc, first_time-snoc,
  snoc_some, exemplars-snoc, Described,
}

module _ (str : Json → String) (digest : String → String) where
  unfoldable pub record_all : List Seen → IssueAggregator → IssueAggregator
  record_all [] a = a
  record_all (s ∷ ss) a = record_all ss (record_failure str digest s.0 s.1 a).1

  module _ (service : String) where
    abbrev pub matching : String → List Seen → List Seen
    matching k = select (λ (s : Seen). fingerprint_of str digest service s.0 == k)

    abbrev DescribedOrNew : String → List Seen → Option Issue → Type 0
    DescribedOrNew k ss none = ss ≡ []
    DescribedOrNew k ss (some i) = Described k ss i

    observe-Described :
        (k : String) (ss : List Seen) (s : Seen) (o : Option Issue)
        → fingerprint_of str digest service s.0 ≡ k
        → DescribedOrNew k ss o
        → Described k
            (ss ++ s ∷ [])
            (observe s.0 (time_of s) (issue_or_new str digest service s.0 (time_of s) o))
    unfolding observe new_issue
    observe-Described k ss s none named h = record {
      named = named;
      counted = omega (arith, ap length h, length-append ss (s ∷ []));
      some_seen = snoc_some ss s;
      first = rw h refl;
      last = sym (last_time-snoc ss s);
      exemplars = ground (arith, exemplars-snoc ss s);
    }
    observe-Described k ss s (some i) named h = record {
      named = h.named;
      counted = omega (arith, h.counted, length-append ss (s ∷ []));
      some_seen = snoc_some ss s;
      first = h.first ∙ sym (first_time-snoc ss s h.some_seen);
      last = sym (last_time-snoc ss s);
      exemplars = ap (with_exemplar (or_none s.0.trace_id)) h.exemplars ∙ exemplars-snoc ss s;
    }

    matching-snoc :
        (k : String) (past : List Seen) (s : Seen)
        → matching k (past ++ s ∷ []) ≡ (
            if fingerprint_of str digest service s.0 == k
            then matching k past ++ s ∷ []
            else matching k past)
    matching-snoc k past s =
        select-append (λ (t : Seen). fingerprint_of str digest service t.0 == k) past (s ∷ [])
        ∙ go (fingerprint_of str digest service s.0 == k) refl
      where
        go :
            (b : Bool)
            → (fingerprint_of str digest service s.0 == k) ≡ b
            → matching k past ++ matching k (s ∷ [])
              ≡ (if b then matching k past ++ s ∷ [] else matching k past)
        go true same = rw same refl
        go false other = rw (other, append-nil) refl

  abbrev old_count : Option Issue → ℕ
  old_count none = 0
  old_count (some i) = i.count

  abbrev count_in : Dict String Issue → ℕ
  count_in d = count_all (map (λ (p : String × Issue). p.1) d)

  count-put :
      (k : String) (i : Issue) (d : Dict String Issue)
      → count_in (put k i d) + old_count (get k d) ≡ count_in d + i.count
  unfolding get put
  count-put k i [] = omega arith
  count-put k i ((j, w) ∷ d) = elim (Bool-cases (j == k)) [
    | inl same ↦ rw same (omega arith)
    | inr other ↦ rw other (omega (arith, count-put k i d))
  ]

  -- The state after the failures `past`.
  record Inv (past : List Seen) (a : IssueAggregator) : Type 0 where
    pub unique : Unique a.issues
    pub described :
        (k : String) → DescribedOrNew a.service k (matching a.service k past) (get k a.issues)
    pub sum : count_in a.issues ≡ length past

  observe_count :
      (service : String) (s : Seen) (o : Option Issue)
      → (observe s.0 (time_of s) (issue_or_new str digest service s.0 (time_of s) o)).count
        ≡ suc (old_count o)
  unfolding observe new_issue
  observe_count service s none = refl
  observe_count service s (some i) = refl

  Inv-record_failure :
      (past : List Seen) (s : Seen) (a : IssueAggregator)
      → Inv past a
      → Inv (past ++ s ∷ []) (record_failure str digest s.0 s.1 a).1
  unfolding record_failure
  Inv-record_failure past s a i =
      let k = fingerprint_of str digest a.service s.0 in
      let issue =
        observe s.0 (time_of s)
          (issue_or_new str digest a.service s.0 (time_of s) (get k a.issues)) in
      record {
        unique = Unique-put k issue a.issues i.unique;
        described = λ j. elim (Bool-cases (k == j)) [
          | inl same ↦
              let k_j = (text_key.same_iff k j).0 same in
              rw (get-put k j issue a.issues, matching-snoc a.service j past s, same)
                (observe-Described a.service j (matching a.service j past) s (get k a.issues) k_j (
                  subst
                    (λ l. DescribedOrNew a.service j (matching a.service j past) (get l a.issues))
                    (sym k_j) (i.described j)))
          | inr other ↦
              rw (get-put k j issue a.issues, matching-snoc a.service j past s, other)
                (i.described j)
        ];
        sum = omega (
          arith,
          count-put k issue a.issues,
          observe_count a.service s (get k a.issues),
          i.sum,
          length-append past (s ∷ []),
        );
      }

  Inv-record_all :
      (past ss : List Seen) (a : IssueAggregator) → Inv past a → Inv (past ++ ss) (record_all ss a)
  unfolding record_all
  Inv-record_all past [] a i = rw append-nil i
  Inv-record_all past (s ∷ ss) a i =
      subst (λ all. Inv all (record_all ss (record_failure str digest s.0 s.1 a).1))
        (append_assoc past (s ∷ []) ss)
        (Inv-record_all (past ++ s ∷ []) ss _ (Inv-record_failure past s a i))

  service-record_all :
      (ss : List Seen) (a : IssueAggregator) → (record_all ss a).service ≡ a.service
  unfolding record_all record_failure
  service-record_all [] a = refl
  service-record_all (s ∷ ss) a = service-record_all ss _

  Inv-create : (service : String) → Inv [] (create service)
  unfolding create get
  Inv-create service = record { unique = tt; described = λ k. refl; sum = refl }

  -- What an issue of a batch says of the failures of its window.
  abbrev pub Reported : List Seen → Issue → Type 0
  Reported ss i =
      (i.count ≡ length ss)
      × (i.first_seen ≡ first_time ss)
      × (i.last_seen ≡ last_time ss)
      × (i.exemplar_trace_ids ≡ take 5 (traces ss))
      × (length i.errors ≤ 10)

  Reported-with_errors :
      (service : String) (ss : List Seen) (errors : Dict String (Dict Pair ℕ)) (k : String)
      (i : Issue)
      → Described k (matching service k ss) i
      → Reported
          (matching service (with_errors errors (k, i)).fingerprint ss)
          (with_errors errors (k, i))
  unfolding merge_issue_errors
  Reported-with_errors service ss errors k i d =
      let counts = map to_entry (or_no_counts (get k errors)) in
      rw d.named (
        d.counted,
        d.first,
        d.last,
        d.exemplars,
        omega
            (arith, length-take 10 (sorted_by issue_error_order (map to_entry (tally counts [])))),
      )

  count-with_errors :
      (errors : Dict String (Dict Pair ℕ)) (d : Dict String Issue)
      → count_all (map (with_errors errors) d) ≡ count_in d
  count-with_errors errors [] = refl
  count-with_errors errors ((k, i) ∷ d) = omega (arith, count-with_errors errors d)

  -- A flush reports the failures recorded since the last one: each issue counts the failures with
  -- its fingerprint, spans the times of the first and of the last of them recorded, keeps the first
  -- five of their trace ids and at most ten entries of error detail; the counts add up to the
  -- number of failures; and what is left is an aggregator as it was created, so the next batch
  -- counts from 0.
  pub flush_window :
      (service : String) (ss : List Seen)
      → let flushed = flush (record_all ss (create service)) in
        All (λ i. Reported (matching service i.fingerprint ss) i) flushed.0.issues
        × (count_all flushed.0.issues ≡ length ss)
        × (flushed.1 ≡ create service)
  unfolding flush create
  flush_window service ss =
      let a = record_all ss (create service) in
      let i = Inv-record_all [] ss (create service) (Inv-create service) in
      let s_same = service-record_all ss (create service) in
      (
        All-Has (λ i. Reported (matching service i.fingerprint ss) i)
            (map (with_errors a.errors) a.issues)
            (λ issue h.
              let ((k, j), there, same) = map-Has (with_errors a.errors) issue a.issues h in
              let found = get-Has k j a.issues i.unique there in
              let described : Described k (matching service k ss) j =
                subst (λ o. DescribedOrNew service k (matching service k ss) o) found
                  (subst (λ t. DescribedOrNew t k (matching t k ss) (get k a.issues)) s_same
                    (i.described k)) in
              subst (λ i. Reported (matching service i.fingerprint ss) i) (sym same)
                (Reported-with_errors service ss a.errors k j described)),
        count-with_errors a.errors a.issues ∙ i.sum,
        unfold create in
            ap
              (λ (t : String).
                let empty : IssueAggregator = record { service = t; issues = []; errors = [] } in
                empty)
              s_same,
      )
