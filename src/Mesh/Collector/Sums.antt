-- ===== src/Mesh/Collector/Sums.antt =====
-- The counts of the catalog after a batch of issues: the sums of its deltas.
use benzene_python.Prelude.{
  suc, ℕ, ℤ, pos, ◌+ℤ◌, add_zero, zero_add, add_assoc, String, ◌≡◌, refl, sym, ap, ◌∙◌, inl, inr,
  false, Option-cases, Option, none, some, List, [], ◌∷◌, if◌then◌else◌, ◌==◌, text_key, Bool-cases,
}
use benzene_python.Effect.{Outcome, error, cancelled, raised, returned, after, pure}
use benzene_python.Effect.Keeps.{after-pure, raised≢returned, Outcome-cases}
use benzene_python.Dict.{Dict, get}
use benzene_python.Dict.Laws.{get-put, get-put_self}
use benzene_python.Json.{
  Json, null, boolean, negative, real, text, truthy, integer, array, object, members, nil,
}
use benzene_python.Mesh.Specdoc.{given_text}
use benzene_python.Mesh.Collector.Python.{Python, is_caught, from_ℤ, or_default, iterate}
use benzene_python.Mesh.Collector.Merge.{
  update_issue, first_issue, read_int, safe_int, merge_into, merge_issue,
}
use benzene_python.Mesh.Collector.{Collector, Method}
use benzene_python.Mesh.Collector.Ingest.{merge_identified, ingest_issue, merge_issues}
use benzene_python.Mesh.Collector.Counts.{
  value_of, delta, count_of, delta-Counts, first_issue-Counts, update_issue-Counts,
}

module _ (py : Python) where
  -- the deltas of a fingerprint in a batch, added up
  abbrev pub delta_if : String → Dict String Json → Option String → ℤ
  delta_if k issue none = pos 0
  delta_if k issue (some fp) = if fp == k then delta py issue else pos 0

  abbrev pub total : String → List Json → ℤ
  total k [] = pos 0
  total k (object ms ∷ vs) =
      delta_if k (members ms) (given_text py.str (get "fingerprint" (members ms))) +ℤ total k vs
  total k (v ∷ vs) = total k vs

  module _ (int_ℤ : (z : ℤ) → py.int (from_ℤ z) ≡ returned z) where
    merge_into-Counts :
        (fp : String) (issue : Dict String Json) (incoming : List Json) (c : Collector)
        (o : Option (Dict String Json))
        → (merge_into py fp issue incoming o c).0 ≡ returned tt
        → count_of py (get fp (merge_into py fp issue incoming o c).1.issues)
          ≡ count_of py o +ℤ delta py issue
    merge_into-Counts fp issue incoming c none done =
        elim (Outcome-cases (safe_int py (or_default (integer 0) (get "count" issue)))) [
          | inl (z, read) ↦ rw read (
              ap (count_of py) (get-put_self fp (first_issue py issue incoming z) c.issues)
              ∙ delta-Counts py int_ℤ z _ (first_issue-Counts py int_ℤ issue incoming z)
              ∙ sym (zero_add z))
          | inr (x, failed) ↦ absurd (cc (rw failed at done))
        ]
    merge_into-Counts fp issue incoming c (some existing) done =
        ap (count_of py) (get-put_self fp (update_issue py issue incoming existing).1 c.issues)
        ∙ update_issue-Counts py int_ℤ issue incoming existing done

    merge_into-other :
        (fp k : String) (issue : Dict String Json) (incoming : List Json) (c : Collector)
        (o : Option (Dict String Json))
        → (fp == k) ≡ false
        → get k (merge_into py fp issue incoming o c).1.issues ≡ get k c.issues
    merge_into-other fp k issue incoming c none other =
        elim (Outcome-cases (safe_int py (or_default (integer 0) (get "count" issue)))) [
          | inl (z, read) ↦
              rw (read, get-put fp k (first_issue py issue incoming z) c.issues, other) refl
          | inr (x, failed) ↦ rw failed refl
        ]
    merge_into-other fp k issue incoming c (some existing) other =
        rw (get-put fp k (update_issue py issue incoming existing).1 c.issues, other) refl

    merge_issue_returned :
        (fp : String) (issue : Dict String Json) (c : Collector)
        → (merge_issue py fp issue c).0 ≡ returned tt
        → (incoming : List Json) × (merge_issue py fp issue c
            ≡ merge_into py fp issue incoming (get fp c.issues) c)
    unfolding merge_issue
    merge_issue_returned fp issue c done =
        elim (Outcome-cases (iterate (or_default (array nil) (get "exemplarTraceIds" issue)))) [
          | inl (incoming, read) ↦ (incoming, rw read refl)
          | inr (x, failed) ↦ absurd (cc (rw failed at done))
        ]

    merge_issue-Counts :
        (fp k : String) (issue : Dict String Json) (c : Collector)
        → (merge_issue py fp issue c).0 ≡ returned tt
        → count_of py (get k (merge_issue py fp issue c).1.issues)
          ≡ count_of py (get k c.issues) +ℤ (if fp == k then delta py issue else pos 0)
    merge_issue-Counts fp k issue c done =
        let (incoming, same) = merge_issue_returned fp issue c done in
        let done' = rw same at done in
        elim (Bool-cases (fp == k)) [
          | inl here ↦
              rw (same, here)
                (rw (← (text_key.same_iff fp k).0 here)
                  (merge_into-Counts fp issue incoming c (get fp c.issues) done'))
          | inr other ↦
              rw (same, other)
                (ap (count_of py) (merge_into-other fp k issue incoming c (get fp c.issues) other)
                  ∙ sym (add_zero _))
        ]

    module _ (digest : String → String) where
      merge_identified-Counts :
          (k : String) (o : Option String) (issue : Dict String Json) (n m : ℕ) (c : Collector)
          → (merge_identified py digest o issue n c).0 ≡ returned m
          → count_of py (get k (merge_identified py digest o issue n c).1.issues)
            ≡ count_of py (get k c.issues) +ℤ delta_if k issue o
      merge_identified-Counts k none issue n m c done = sym (add_zero _)
      merge_identified-Counts k (some fp) issue n m c done =
          let w = (merge_issue py fp issue c).1 in
          let next : Unit → Method ℕ = λ _. pure (suc n) in
          elim (Outcome-cases ((merge_issue py fp issue c).0)) [
            | inl (t, merged) ↦
                ap (λ (d : Collector). count_of py (get k d.issues))
                  (after-pure (merge_issue py fp issue c).0 w (suc n))
                ∙ merge_issue-Counts fp k issue c merged
            | inr (x, failed) ↦ absurd (
                raised≢returned x m
                  (sym (ap (λ (o : Outcome Unit). (after (o, w) next).0) failed) ∙ done))
          ]

      ingest_issue-Counts :
          (k : String) (v : Json) (vs : List Json) (n m : ℕ) (c : Collector)
          → (ingest_issue py digest v n c).0 ≡ returned m
          → count_of py (get k (ingest_issue py digest v n c).1.issues) +ℤ total k vs
            ≡ count_of py (get k c.issues) +ℤ total k (v ∷ vs)
      ingest_issue-Counts k (object ms) vs n m c done =
          let fp = given_text py.str (get "fingerprint" (members ms)) in
          ap (λ z. z +ℤ total k vs) (merge_identified-Counts k fp (members ms) n m c done)
          ∙ add_assoc (count_of py (get k c.issues)) (delta_if k (members ms) fp) (total k vs)
      ingest_issue-Counts k v vs n m c done = absurd (raised≢returned _ m done)

      merge_issues-total :
          (k : String) (vs : List Json) (n m : ℕ) (c : Collector)
          → (merge_issues py digest vs n c).0 ≡ returned m
          → count_of py (get k (merge_issues py digest vs n c).1.issues)
            ≡ count_of py (get k c.issues) +ℤ total k vs
      unfolding merge_issues
      merge_issues-total k [] n m c done = sym (add_zero _)
      merge_issues-total k (v ∷ vs) n m c done =
          let w = (ingest_issue py digest v n c).1 in
          elim (Outcome-cases ((ingest_issue py digest v n c).0)) [
            | inl (a, merged) ↦
                let step : merge_issues py digest (v ∷ vs) n c ≡ merge_issues py digest vs a w =
                  ap (λ (o : Outcome ℕ). after (o, w) (merge_issues py digest vs)) merged in
                ap (λ (p : Outcome ℕ × Collector). count_of py (get k p.1.issues)) step
                ∙ merge_issues-total k vs a m w
                    (sym (ap (λ (p : Outcome ℕ × Collector). p.0) step) ∙ done)
                ∙ ingest_issue-Counts k v vs n a c merged
            | inr (x, failed) ↦ absurd (
                raised≢returned x m (
                  sym (ap (λ (o : Outcome ℕ). (after (o, w) (merge_issues py digest vs)).0) failed)
                  ∙ done))
          ]

  -- What a count is worth: what int reads of it, and nothing where it is absent or int raises.
  abbrev pub worth : Option Json → ℤ
  worth none = pos 0
  worth (some v) = value_of (py.int v)

  -- the count of a fingerprint in the catalog, 0 where it has no issue
  abbrev pub recorded : Option (Dict String Json) → ℤ
  recorded none = pos 0
  recorded (some issue) = worth (get "count" issue)

  -- the counts of the entries of a batch with this fingerprint, added up
  abbrev pub share : String → Option Json → ℤ → ℤ
  share k none z = pos 0
  share k (some v) z = if truthy v then (if py.str v == k then z else pos 0) else pos 0

  abbrev pub sum_of : String → List Json → ℤ
  sum_of k [] = pos 0
  sum_of k (object ms ∷ vs) =
      share k (get "fingerprint" (members ms)) (worth (get "count" (members ms))) +ℤ sum_of k vs
  sum_of k (v ∷ vs) = sum_of k vs

  value_of-read_int : (o : Outcome ℤ) → value_of (read_int o) ≡ value_of o
  value_of-read_int (returned z) = refl
  value_of-read_int (raised cancelled) = refl
  value_of-read_int (raised (error name why)) = elim (Bool-cases (is_caught name)) [
    | inl caught ↦ rw caught refl
    | inr other ↦ rw other refl
  ]

  module _ (int_ℤ : (z : ℤ) → py.int (from_ℤ z) ≡ returned z) where
    delta-worth : (issue : Dict String Json) → delta py issue ≡ worth (get "count" issue)
    unfolding safe_int
    delta-worth issue = elim (Option-cases (get "count" issue)) [
      | inl missing ↦
          rw missing (value_of-read_int (py.int (integer 0)) ∙ ap value_of (int_ℤ (pos 0)))
      | inr (v, found) ↦ rw found (value_of-read_int (py.int v))
    ]

    count_of-recorded : (o : Option (Dict String Json)) → count_of py o ≡ recorded o
    count_of-recorded none = refl
    count_of-recorded (some issue) = delta-worth issue

    delta_if-share :
        (k : String) (issue : Dict String Json) (o : Option Json)
        → delta_if k issue (given_text py.str o) ≡ share k o (worth (get "count" issue))
    delta_if-share k issue none = refl
    delta_if-share k issue (some v) = elim (Bool-cases (truthy v)) [
      | inl given ↦ rw given (ap (λ z. if py.str v == k then z else pos 0) (delta-worth issue))
      | inr blank ↦ rw blank refl
    ]

    total-sum_of : (k : String) (vs : List Json) → total k vs ≡ sum_of k vs
    total-sum_of k [] = refl
    total-sum_of k (object ms ∷ vs) = rw (total-sum_of k vs) (
        ap (λ z. z +ℤ sum_of k vs) (delta_if-share k (members ms) (get "fingerprint" (members ms))))
    total-sum_of k (null ∷ vs) = total-sum_of k vs
    total-sum_of k (boolean b ∷ vs) = total-sum_of k vs
    total-sum_of k (integer n ∷ vs) = total-sum_of k vs
    total-sum_of k (negative n ∷ vs) = total-sum_of k vs
    total-sum_of k (real z t ∷ vs) = total-sum_of k vs
    total-sum_of k (text t ∷ vs) = total-sum_of k vs
    total-sum_of k (array us ∷ vs) = total-sum_of k vs

    -- Where a batch of issues is merged without an exception, the count of every fingerprint has
    -- grown by the sum of the batch's counts for it, if int reads the collector's own counters
    -- back: a count is what int makes of it, and 0 where it is absent or int raises.
    pub merge_issues_counts :
        (digest : String → String) (k : String) (vs : List Json) (n m : ℕ) (c : Collector)
        → (merge_issues py digest vs n c).0 ≡ returned m
        → recorded (get k (merge_issues py digest vs n c).1.issues)
          ≡ recorded (get k c.issues) +ℤ sum_of k vs
    merge_issues_counts digest k vs n m c done =
        sym (count_of-recorded (get k (merge_issues py digest vs n c).1.issues))
        ∙ merge_issues-total int_ℤ digest k vs n m c done
        ∙ rw (count_of-recorded (get k c.issues), total-sum_of k vs) refl
