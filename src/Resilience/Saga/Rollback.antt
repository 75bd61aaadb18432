-- ===== src/Resilience/Saga/Rollback.antt =====
-- A saga whose steps can be undone leaves no trail; what is attempted when they cannot.
use mathlib.Core.List.{append-nil, append_assoc, reverse-append}
use Prim.Native.String.{◌++◌ as str_append}
use benzene_python.Prelude.{
  String, true, false, Option, none, some, List, [], ◌∷◌, ◌++◌, reverse, ◌≡◌, ◌≢◌, refl, arith, All,
  ◌⊎◌, inl, inr, Bool-cases, map-reverse,
}
use benzene_python.Effect.{error, cancelled, Outcome, returned, raised, Coroutine}
use benzene_python.Results.Status
use benzene_python.Results.Result
use benzene_python.Results.Result.{Result}
use benzene_python.Resilience.Saga.{
  SagaStep, SagaResult, proceed, fails, names, judge, conclude, undo, rollback, run_steps, execute,
  is_successful,
}

exception_fails :
    (A : Type 0) (message : String)
    → Result.is_successful {A = A} (Result.failed_with Status.unexpected_error message) ≡ false
unfolding Result.is_successful Status.is_successful
exception_fails A message = refl

module _ {S P : Type 0} where
  -- whether an action's outcome is a success of its step, or a failure of it
  abbrev pub Succeeded : Outcome (Option (Result (S ⊎ P))) → Type 0
  Succeeded (returned none) = Unit
  Succeeded (returned (some r)) = Result.is_successful r ≡ true
  Succeeded (raised x) = ⊥

  abbrev pub Failed : Outcome (Option (Result (S ⊎ P))) → Type 0
  Failed (returned none) = ⊥
  Failed (returned (some r)) = Result.is_successful r ≡ false
  Failed (raised (error kind text)) = Unit
  Failed (raised cancelled) = ⊥

  abbrev UndoneBy : SagaStep S P → S → S → Type 0
  UndoneBy step s s' =
      (undoes : Coroutine S Unit) × (step.compensation ≡ some undoes)
      × (undoes s' ≡ (returned tt, s))

  -- A step is reversible if from every state its action, when it succeeds, is undone by its
  -- compensation, and when it fails has left the state as it was; and neither is cancelled.
  pub record IsReversible (step : SagaStep S P) : Type 0 where
    pub undone : (s : S) → Succeeded (step.action s).0 → UndoneBy step s (step.action s).1
    pub untouched : (s : S) → Failed (step.action s).0 → (step.action s).1 ≡ s
    pub goes_on : (s : S) → (step.action s).0 ≢ raised cancelled

  -- From one state the actions of these steps, in this order, all succeed and lead to the other.
  abbrev pub Runs : List (SagaStep S P) → S → S → Type 0
  Runs [] s t = s ≡ t
  Runs (step ∷ rest) s t = Succeeded (step.action s).0 × Runs rest (step.action s).1 t

  Runs-snoc :
      (done : List (SagaStep S P)) (step : SagaStep S P) (s t : S)
      → Runs done s t
      → Succeeded (step.action t).0
      → Runs (done ++ step ∷ []) s (step.action t).1
  Runs-snoc [] step s t e good = rw e (good, refl)
  Runs-snoc (first ∷ rest) step s t (passed, more) good =
      (passed, Runs-snoc rest step (first.action s).1 t more good)

  -- Undoing these steps, in this order, leads from one state to the other.
  abbrev Leads : List (SagaStep S P) → S → S → Type 0
  Leads [] s t = s ≡ t
  Leads (step ∷ rest) s t =
      (undoes : Coroutine S Unit) × (mid : S) × (step.compensation ≡ some undoes)
      × (undoes s ≡ (returned tt, mid))
      × Leads rest mid t

  module _ (failed_step : String) (failure : Result (S ⊎ P)) (completed : List String) where
    undo-Leads :
        (rest : List (SagaStep S P)) (done kept : List String) (s t : S)
        → Leads rest s t
        → undo failed_step failure completed rest done kept s ≡ (
          returned (record {
            result = failure;
            state = t;
            completed = completed;
            compensated = done ++ names rest;
            compensation_failures = kept;
            failed_step = some failed_step;
          }),
          t,
        )
    unfolding undo
    undo-Leads [] done kept s t e = ground (arith, append-nil done)
    undo-Leads (step ∷ rest) done kept s t (undoes, mid, has, back, more) = ground (
      arith,
      undo-Leads rest (done ++ step.name ∷ []) kept mid t more,
      append_assoc done (step.name ∷ []) (names rest),
    )

  -- How a saga of reversible steps may end: every action succeeded, or those before one that
  -- failed.
  abbrev pub Settled : List (SagaStep S P) → S → Outcome (SagaResult S P) × S → Type 0
  Settled steps s (returned r, s') =
      (Runs steps s s'
        × (r.failed_step ≡ none)
        × (is_successful r ≡ true)
        × (r.state ≡ s')
        × (r.completed ≡ names steps)
        × (r.compensated ≡ []))
      ⊎ ((done : List (SagaStep S P)) × (step : SagaStep S P) × (rest : List (SagaStep S P))
          × (mid : S) × (steps ≡ done ++ step ∷ rest)
          × Runs done s mid
          × Failed (step.action mid).0
          × (r.failed_step ≡ some step.name)
          × (is_successful r ≡ false)
          × (s' ≡ s)
          × (r.state ≡ s)
          × (r.completed ≡ names done)
          × (r.compensated ≡ reverse (names done)))
  Settled steps s (raised x, s') = ⊥

  -- what the loop makes of an outcome: it goes on after a success, and rolls back after a failure
  Split : String → Outcome (Option (Result (S ⊎ P))) → Type 0
  Split name o =
      (Succeeded o × (judge name o ≡ proceed))
      ⊎ ((o ≡ raised cancelled)
          ⊎ (Failed o
              × (failure : Result (S ⊎ P)) × (judge name o ≡ fails failure)
              × (Result.is_successful failure ≡ false)))

  judge-Split : (name : String) (o : Outcome (Option (Result (S ⊎ P)))) → Split name o
  unfolding judge Split
  judge-Split name (raised (error kind text)) =
      inr (inr (tt, _, refl, exception_fails (S ⊎ P) (str_append name (str_append ": " text))))
  judge-Split name (raised cancelled) = inr (inl refl)
  judge-Split name (returned none) = inl (tt, refl)
  judge-Split name (returned (some r)) = elim (Bool-cases (Result.is_successful r)) [
    | inl good ↦ inl (good, rw good refl)
    | inr bad ↦ inr (inr (bad, r, rw bad refl, bad))
  ]

  rollback-Settled :
      (step : SagaStep S P) (rest completed : List (SagaStep S P)) (failure : Result (S ⊎ P))
      (s s' s0 : S)
      → Runs completed s0 s
      → Leads (reverse completed) s s0
      → Failed (step.action s).0
      → s' ≡ s
      → Result.is_successful failure ≡ false
      → Settled (completed ++ step ∷ rest) s0 (rollback step.name failure completed s')
  unfolding rollback is_successful
  rollback-Settled step rest completed failure s s' s0 ran back failed same bad = rw same (
      rw (undo-Leads step.name failure (names completed) (reverse completed) [] [] s s0 back) (
        inr (
          completed,
          step,
          rest,
          s,
          refl,
          ran,
          failed,
          refl,
          bad,
          refl,
          refl,
          refl,
          map-reverse _ completed,
        )))

  run_steps-Settled :
      (steps completed : List (SagaStep S P)) (s0 s : S)
      → Runs completed s0 s
      → Leads (reverse completed) s s0
      → All IsReversible steps
      → Settled (completed ++ steps) s0 (run_steps steps completed s)
  unfolding run_steps conclude Split
  run_steps-Settled [] completed s0 s ran back h =
      rw append-nil
        (inl (ran, refl, (unfold is_successful Status.is_successful in refl), refl, refl, refl))
  run_steps-Settled (step ∷ rest) completed s0 s ran back h =
      let s' = (step.action s).1 in
      elim (judge-Split step.name (step.action s).0) [
        | inl (good, goes) ↦
            let (undoes, has, undone) = h.0.undone s good in
            rw goes (
              rw append_assoc at (
                run_steps-Settled rest (completed ++ step ∷ []) s0 s'
                  (Runs-snoc completed step s0 s ran good)
                  (rw reverse-append (undoes, s, has, undone, back)) h.1))
        | inr (inl stopped) ↦ absurd (h.0.goes_on s stopped)
        | inr (inr (failed, failure, stops, bad)) ↦ rw stops (
            rollback-Settled step rest completed failure s s' s0 ran back failed
              (h.0.untouched s failed) bad)
      ]

  -- A saga of reversible steps is all or nothing: it returns, and either every action succeeded, in
  -- order, the result is a success in the state that they lead to and nothing is compensated; or
  -- there is a first step whose action failed, the result is a failure that names it, the state is
  -- the one that the saga started from, and the steps compensated are the ones before it in
  -- reverse. An action fails if it raises or returns a result that is not a success.
  pub execute-Settled :
      (steps : List (SagaStep S P)) (s : S)
      → All IsReversible steps
      → Settled steps s (execute steps s)
  unfolding execute
  execute-Settled steps s h = run_steps-Settled steps [] s s refl refl h
