-- ===== src/Resilience/Tests/Breakers.antt =====
-- The circuit breaker at concrete calls. The world is the clock.
use benzene_python.Prelude.{
  ℕ, true, false, ◌≡◌, ◌≢◌, ◌≤◌, ◌+◌, ◌↔◌, ◌⊎◌, refl, none, some, arith, if◌then◌else◌,
}
use benzene_python.Effect.{returned, raised, cancelled, Coroutine}
use benzene_python.Results.Status
use benzene_python.Results.Result
use benzene_python.Results.Result.{Result}
use benzene_python.Resilience.CircuitBreaker.{
  closed, opened, half_open, Config, Breaker, fresh, default_trip_on, configure, admit, is_handled,
  record_result, on_success, on_failure, settle, rejection, execute,
}
use benzene_python.Resilience.CircuitBreaker.Valid.{IsValid}
use benzene_python.Resilience.CircuitBreaker.Calls.{
  view, spec_execute, execute-spec_execute, execute_cancelled_probe,
}
use benzene_python.Resilience.CircuitBreaker.Threads.{Calls, start, entered_in, Reach-admit}

abbrev cfg : Config
cfg = record { failure_threshold = 2; reset_timeout = 30; trip_on = default_trip_on }

configured : configure 2 30 default_trip_on ≡ cfg
unfolding configure
configured = refl

abbrev clock : ℕ → ℕ
clock now = now

abbrev down : Coroutine ℕ (Result ℕ)
down now = (returned (Result.plain Status.timeout none), now)

abbrev up : Coroutine ℕ (Result ℕ)
up now = (returned (Result.ok (some 1)), now)

abbrev cut : Coroutine ℕ (Result ℕ)
cut now = (raised cancelled, now)

abbrev once_failed : Breaker
once_failed = record { state = closed; consecutive_failures = 1; opened_at = 0; probing = false }

abbrev tripped_at_9 : Breaker
tripped_at_9 = record { state = opened; consecutive_failures = 2; opened_at = 9; probing = false }

runs :
    (execute cfg clock down (once_failed, 9)
      ≡ (returned (Result.plain Status.timeout none), (tripped_at_9, 9)))
    × (execute cfg clock up (tripped_at_9, 38) ≡ (rejection cfg clock, (tripped_at_9, 38)))
    × ((execute cfg clock up (tripped_at_9, 39)).1.0.state ≡ closed)
unfolding execute admit settle record_result on_success on_failure is_handled Result.is_successful
    Status.is_successful
runs = (refl, refl, refl)

execute-spec_execute_example :
    let (o, (b', w')) = execute cfg clock down (once_failed, 9) in
    ((o, (view b', w')) ≡ spec_execute cfg clock down (view once_failed, 9))
    × (b'.state ≢ half_open)
execute-spec_execute_example =
    execute-spec_execute cfg clock down once_failed 9 (omega arith, refl) (λ e. cc) (λ e. cc)

execute_cancelled_probe_example :
    let stuck = (execute cfg clock cut (tripped_at_9, 40)).1.0 in
    execute cfg clock up (stuck, 4000) ≡ (rejection cfg clock, (stuck, 4000))
execute_cancelled_probe_example =
    execute_cancelled_probe cfg clock cut tripped_at_9 40 4000 up refl (omega arith) refl

abbrev idle : Calls
idle = record { breaker = fresh; running = 0 }

Reach-admit_example :
    IsValid cfg fresh
    × (((admit cfg 5 fresh).0 ≡ true) ↔ (
        (fresh.state ≡ closed)
        ⊎ ((fresh.state ≡ opened) × (fresh.opened_at + cfg.reset_timeout ≤ 5))))
    × ((admit cfg 5 fresh).1
        ≡ (if (admit cfg 5 fresh).0 then entered_in fresh.state fresh else fresh))
Reach-admit_example = Reach-admit cfg {A = ℕ} {s = idle} 5 (omega arith) start
