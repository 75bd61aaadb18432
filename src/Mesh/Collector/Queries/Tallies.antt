-- ===== src/Mesh/Collector/Queries/Tallies.antt =====
-- What the read models count.
use benzene_python.Prelude.{
  ℕ, suc, ◌+◌, String, ◌≡◌, refl, ap, inl, inr, Bool, true, not, List, [], ◌∷◌, select, length,
  arith, if◌then◌else◌, ◌==◌, text_key, Bool-cases,
}
use benzene_python.Dict.{Dict, get, put}
use benzene_python.Results.Status.{is_successful}
use benzene_python.Mesh.Issues.{amount}
use benzene_python.Mesh.Collector.{Event, Collector}
use benzene_python.Mesh.Collector.Queries.{
  count_statuses, count_failures, invocations_on, events_on,
}

abbrev pub sum_where : (String → Bool) → Dict String ℕ → ℕ
sum_where p [] = 0
sum_where p ((k, n) ∷ d) = if p k then n + sum_where p d else sum_where p d

sum_where-put :
    (p : String → Bool) (k : String) (m : ℕ) (d : Dict String ℕ)
    → sum_where p (put k m d) + (if p k then amount (get k d) else 0)
      ≡ sum_where p d + (if p k then m else 0)
unfolding get put
sum_where-put p k m [] = ground arith
sum_where-put p k m ((j, n) ∷ d) = elim (Bool-cases (j == k)) [
  | inl same ↦ rw (same, (text_key.same_iff j k).0 same) (ground arith)
  | inr other ↦ rw other (ground (arith, sum_where-put p k m d))
]

sum_where-count_statuses :
    (p : String → Bool) (es : List Event) (d : Dict String ℕ)
    → sum_where p (count_statuses es d)
      ≡ sum_where p d + length (select (λ (e : Event). p e.status) es)
unfolding count_statuses
sum_where-count_statuses p [] d = omega arith
sum_where-count_statuses p (e ∷ es) d =
    let counted = suc (amount (get e.status d)) in
    ground (
      arith,
      sum_where-count_statuses p es (put e.status counted d),
      sum_where-put p e.status counted d,
    )

select_all : (es : List Event) → length (select (λ (e : Event). true) es) ≡ length es
select_all [] = refl
select_all (e ∷ es) = ap suc (select_all es)

-- The status counts that a topic reports add up to its invocations, and those of the failing
-- statuses to its errors.
pub status_counts_add_up :
    (topic : String) (c : Collector)
    → let counts = count_statuses (events_on topic c.events) [] in
      (sum_where (λ s. true) counts ≡ invocations_on topic c)
      × (sum_where (λ s. not (is_successful s)) counts ≡ count_failures (events_on topic c.events))
unfolding invocations_on
status_counts_add_up topic c =
    let es = events_on topic c.events in
    (
      omega (arith, sum_where-count_statuses (λ s. true) es [], select_all es),
      omega (arith, sum_where-count_statuses (λ s. not (is_successful s)) es []),
    )
