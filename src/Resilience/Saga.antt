-- ===== src/Resilience/Saga.antt =====
-- packages/benzene-resilience/benzene/resilience/saga.py. The shared state is a type of its own,
-- and a result's payload is that state or another value.
pub mod Rollback
use Prim.Native.String.{◌++◌ as str_append}
use benzene_python.Prelude.{
  String, Bool, true, false, Option, none, some, List, [], ◌∷◌, ◌++◌, map, reverse, ◌⊎◌, inl,
  if◌then◌else◌,
}
use benzene_python.Effect.{error, cancelled, Outcome, returned, raised, Coroutine}
use benzene_python.Results.Status
use benzene_python.Results.Result
use benzene_python.Results.Result.{Result}

pub record SagaStep {ℓ} (S P : Type ℓ) : Type ℓ where
  pub name : String
  pub action : Coroutine S (Option (Result (S ⊎ P)))
  pub compensation : Option (Coroutine S Unit)

pub record SagaResult {ℓ} (S P : Type ℓ) : Type ℓ where
  pub result : Result (S ⊎ P)
  pub state : S
  pub completed : List String
  pub compensated : List String
  pub compensation_failures : List String
  pub failed_step : Option String

-- What the loop of `execute` makes of an action's outcome.
pub data Verdict {ℓ} (S P : Type ℓ) : Type ℓ where
  proceed cut : Verdict S P
  fails : Result (S ⊎ P) → Verdict S P

module _ {ℓ} {S P : Type ℓ} where
  -- the property `is_successful` of a saga's result
  unfoldable pub is_successful : SagaResult S P → Bool
  unfolding Result.is_successful
  is_successful r = Result.is_successful r.result

  -- `step`, `add`
  unfoldable pub add : SagaStep S P → List (SagaStep S P) → List (SagaStep S P)
  add step steps = steps ++ step ∷ []

  abbrev pub names : List (SagaStep S P) → List String
  names = map (λ (s : SagaStep S P). s.name)

  unfoldable pub judge : String → Outcome (Option (Result (S ⊎ P))) → Verdict S P
  judge name (raised (error kind text)) =
      fails (Result.failed_with Status.unexpected_error (str_append name (str_append ": " text)))
  judge name (raised cancelled) = cut
  judge name (returned none) = proceed
  judge name (returned (some r)) = if Result.is_successful r then proceed else fails r

  -- the loop of `_rollback`, over the completed steps in reverse
  module _ (failed_step : String) (failure : Result (S ⊎ P)) (completed : List String) where
    unfoldable pub undo :
        List (SagaStep S P) → List String → List String → Coroutine S (SagaResult S P)
    undo [] compensated compensation_failures s = (
      returned (record {
        result = failure;
        state = s;
        completed = completed;
        compensated = compensated;
        compensation_failures = compensation_failures;
        failed_step = some failed_step;
      }),
      s,
    )
    undo (step ∷ rest) compensated compensation_failures s = elim step.compensation [
      | none ↦ undo rest compensated compensation_failures s
      | some undoes ↦
          let s' = (undoes s).1 in
          let restored = undo rest (compensated ++ step.name ∷ []) compensation_failures s' in
          let kept = undo rest compensated (compensation_failures ++ step.name ∷ []) s' in
          elim ((undoes s).0) [
            | returned _ ↦ restored
            | raised x ↦ elim x [ error _ _ ↦ kept | cancelled ↦ (raised cancelled, s') ]
          ]
    ]

  unfoldable pub rollback :
      String → Result (S ⊎ P) → List (SagaStep S P) → Coroutine S (SagaResult S P)
  rollback failed_step failure completed =
      undo failed_step failure (names completed) (reverse completed) [] []

  -- what a verdict leads to: the rest of the loop, the cancellation, or the rollback
  unfoldable pub conclude :
      Verdict S P
      → Outcome (SagaResult S P) × S
      → (Result (S ⊎ P) → Outcome (SagaResult S P) × S)
      → S
      → Outcome (SagaResult S P) × S
  conclude proceed later undone s = later
  conclude cut later undone s = (raised cancelled, s)
  conclude (fails failure) later undone s = undone failure

  -- the loop of `execute`
  unfoldable pub run_steps :
      List (SagaStep S P) → List (SagaStep S P) → Coroutine S (SagaResult S P)
  run_steps [] completed s = (
    returned (record {
      result = Result.ok (some (inl s));
      state = s;
      completed = names completed;
      compensated = [];
      compensation_failures = [];
      failed_step = none;
    }),
    s,
  )
  run_steps (step ∷ rest) completed s =
      let s' = (step.action s).1 in
      conclude (judge step.name (step.action s).0) (run_steps rest (completed ++ step ∷ []) s')
        (λ failure. rollback step.name failure completed s') s'

  unfoldable pub execute : List (SagaStep S P) → Coroutine S (SagaResult S P)
  execute steps s = run_steps steps [] s
