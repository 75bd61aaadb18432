-- ===== src/Mesh/Aggregator/Seen.antt =====
-- A failure with its time, and what an issue says of all the failures with its fingerprint.
use benzene_python.Prelude.{
  ℕ, zero, suc, ◌+◌, String, ◌≡◌, ◌≢◌, refl, sym, ap, ◌∙◌, inl, inr, Option, none, some, List, [],
  ◌∷◌, ◌++◌, take, length, arith, if◌then◌else◌, text_key, Option-cases, ltb,
}
use benzene_python.Mesh.Issues.{or_none, or_else}
use benzene_python.Mesh.Aggregator.{Issue, Failure, with_exemplar}

-- a failure with the time at which it is recorded
abbrev pub Seen : Type 0
Seen = Failure × String

abbrev pub time_of : Seen → String
time_of s = or_else (s.0.at) s.1

abbrev pub first_time : List Seen → Option String
first_time [] = none
first_time (s ∷ ss) = some (time_of s)

abbrev pub last_time : List Seen → Option String
last_time [] = none
last_time (s ∷ []) = some (time_of s)
last_time (s ∷ t ∷ ss) = last_time (t ∷ ss)

abbrev pub traces : List Seen → List String
traces [] = []
traces (s ∷ ss) = elim (or_none s.0.trace_id) [ none ↦ traces ss | some t ↦ t ∷ traces ss ]

abbrev pub count_all : List Issue → ℕ
count_all [] = 0
count_all (i ∷ is) = i.count + count_all is

take_nil : {A : Type 0} (n : ℕ) → take {A = A} n [] ≡ []
take_nil zero = refl
take_nil (suc n) = refl

take-snoc :
    {A : Type 0} (n : ℕ) (xs : List A) (x : A)
    → take n (xs ++ x ∷ [])
      ≡ (if ltb (length (take n xs)) n then take n xs ++ x ∷ [] else take n xs)
take-snoc zero xs x = refl
take-snoc {A} (suc n) [] x =
    let small : (if ltb 0 (suc n) then x ∷ [] else []) ≡ x ∷ [] = ground arith in
    ap (λ (ys : List A). x ∷ ys) (take_nil n) ∙ sym small
take-snoc (suc n) (y ∷ ys) x = ground (arith, take-snoc n ys x)

pub last_time-snoc : (ss : List Seen) (s : Seen) → last_time (ss ++ s ∷ []) ≡ some (time_of s)
last_time-snoc [] s = refl
last_time-snoc (t ∷ []) s = refl
last_time-snoc (t ∷ u ∷ ss) s = last_time-snoc (u ∷ ss) s

pub first_time-snoc :
    (ss : List Seen) (s : Seen) → ss ≢ [] → first_time (ss ++ s ∷ []) ≡ first_time ss
first_time-snoc [] s h = absurd (h refl)
first_time-snoc (t ∷ ss) s h = refl

traces-snoc :
    (ss : List Seen) (s : Seen)
    → traces (ss ++ s ∷ [])
      ≡ elim (or_none s.0.trace_id) [ none ↦ traces ss | some t ↦ traces ss ++ t ∷ [] ]
traces-snoc [] s = ground arith
traces-snoc (t ∷ ss) s = elim (Option-cases (or_none s.0.trace_id)) [
  | inl absent ↦ ground (arith, traces-snoc ss s)
  | inr (u, given) ↦ ground (arith, traces-snoc ss s)
]

pub snoc_some : (ss : List Seen) (s : Seen) → ss ++ s ∷ [] ≢ []
snoc_some [] s h = ground arith
snoc_some (t ∷ ss) s h = ground arith

pub exemplars-snoc :
    (ss : List Seen) (s : Seen)
    → with_exemplar (or_none s.0.trace_id) (take 5 (traces ss)) ≡ take 5 (traces (ss ++ s ∷ []))
exemplars-snoc ss s = elim (Option-cases (or_none s.0.trace_id)) [
  | inl absent ↦ rw absent (ground (arith, traces-snoc ss s))
  | inr (u, given) ↦ rw given (ground (arith, traces-snoc ss s, take-snoc 5 (traces ss) u))
]

-- what an issue says of the failures with its fingerprint
pub record Described (k : String) (ss : List Seen) (i : Issue) : Type 0 where
  pub named : i.fingerprint ≡ k
  pub counted : i.count ≡ length ss
  pub some_seen : ss ≢ []
  pub first : i.first_seen ≡ first_time ss
  pub last : i.last_seen ≡ last_time ss
  pub exemplars : i.exemplar_trace_ids ≡ take 5 (traces ss)
