-- ===== src/Resilience/Tests/Sagas.antt =====
-- A saga over a counter: reserve, then fail at the courier.
use benzene_python.Prelude.{ℕ, ◌+◌, ◌-◌, String, ◌≡◌, refl, none, some, [], ◌∷◌, arith}
use benzene_python.Effect.{error, returned, raised, Coroutine}
use benzene_python.Results.Status
use benzene_python.Results.Result
use benzene_python.Results.Result.{Result}
use benzene_python.Resilience.Saga.{SagaStep, judge, conclude, undo, rollback, run_steps, execute}
use benzene_python.Resilience.Saga.Rollback.{IsReversible, Settled, execute-Settled}

abbrev unreserve : Coroutine ℕ (Unit {0})
unreserve n = (returned tt, n - 1)

abbrev reserve : SagaStep ℕ String
reserve = record {
  name = "reserve";
  action = λ n. (returned none, n + 1);
  compensation = some unreserve;
}

abbrev courier : SagaStep ℕ String
courier = record {
  name = "courier";
  action = λ n. (raised (error "RuntimeError" "no van"), n);
  compensation = none;
}

run : (execute (reserve ∷ courier ∷ []) 7) ≡ (
  returned (record {
    result = Result.failed_with Status.unexpected_error "courier: no van";
    state = 7;
    completed = "reserve" ∷ [];
    compensated = "reserve" ∷ [];
    compensation_failures = [];
    failed_step = some "courier";
  }),
  7,
)
unfolding execute run_steps conclude judge rollback undo
run = refl

IsReversible-reserve : IsReversible reserve
IsReversible-reserve = record {
  undone = λ n good. (unreserve, refl, ground arith);
  untouched = λ n bad. elim bad [ ];
  goes_on = λ n stopped. absurd (ground arith);
}

IsReversible-courier : IsReversible courier
IsReversible-courier = record {
  undone = λ n good. elim good [ ];
  untouched = λ n bad. refl;
  goes_on = λ n stopped. absurd (ground arith);
}

execute-Settled_example : Settled (reserve ∷ courier ∷ []) 7 (execute (reserve ∷ courier ∷ []) 7)
execute-Settled_example =
    execute-Settled (reserve ∷ courier ∷ []) 7 (IsReversible-reserve, (IsReversible-courier, tt))
