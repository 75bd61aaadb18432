-- ===== src/Resilience/CircuitBreaker.antt =====
-- packages/benzene-resilience/benzene/resilience/circuit_breaker.py. Times are whole ticks of the
-- clock, and the reset timeout is not negative.
pub mod Valid
pub mod Calls
pub mod Threads
use benzene_python.Prelude.{
  ℕ, suc, String, Bool, true, false, not, ◌+◌, ◌||◌, max, List, [], ◌∷◌, if◌then◌else◌, leb,
  contains, text_key,
}
use benzene_python.Effect.{Fault, error, cancelled, Outcome, returned, raised, Coroutine}
use benzene_python.Results.Status
use benzene_python.Results.Result
use benzene_python.Results.Result.{Result}

abbrev pub default_trip_on : List String
default_trip_on =
    Status.service_unavailable ∷ Status.timeout ∷ Status.too_many_requests ∷ Status.unexpected_error
    ∷ []

pub data CircuitState : Type 0 where
  closed opened half_open : CircuitState

-- the settings that `__init__` fixes
pub record Config : Type 0 where
  pub failure_threshold : ℕ
  pub reset_timeout : ℕ
  pub trip_on : List String

pub record Breaker : Type 0 where
  pub state : CircuitState
  pub consecutive_failures : ℕ
  pub opened_at : ℕ
  pub probing : Bool

-- `__init__`
unfoldable pub configure : ℕ → ℕ → List String → Config
configure failure_threshold reset_timeout trip_on = record {
  failure_threshold = max 1 failure_threshold;
  reset_timeout = reset_timeout;
  trip_on = trip_on;
}

abbrev pub fresh : Breaker
fresh = record { state = closed; consecutive_failures = 0; opened_at = 0; probing = false }

module _ (cfg : Config) where
  -- `clock() - opened_at >= reset_timeout`, over the integers
  unfoldable pub reset_elapsed : ℕ → Breaker → Bool
  reset_elapsed now b = leb (b.opened_at + cfg.reset_timeout) now

  -- the property `state`
  unfoldable pub current_state : ℕ → Breaker → CircuitState
  unfolding reset_elapsed
  current_state now b = elim b.state [
    | opened ↦ if reset_elapsed now b then half_open else opened
    | _ ↦ b.state
  ]

  admit_in : CircuitState → ℕ → Breaker → Bool × Breaker
  unfolding reset_elapsed
  admit_in opened now b =
      if not (reset_elapsed now b)
      then (false, b)
      else (true, record b { state = half_open; probing = true })
  admit_in half_open now b = if b.probing then (false, b) else (true, record b { probing = true })
  admit_in closed now b = (true, b)

  unfoldable pub admit : ℕ → Breaker → Bool × Breaker
  unfolding admit_in
  admit now b = admit_in b.state now b

  unfoldable pub on_success : Breaker → Breaker
  on_success b = record b { consecutive_failures = 0; probing = false; state = closed }

  unfoldable pub trip : ℕ → Breaker → Breaker
  trip now b = record b { state = opened; opened_at = now }

  count_failure : ℕ → Breaker → Breaker
  unfolding trip
  count_failure now b =
      let counted : Breaker = record b { consecutive_failures = b.consecutive_failures + 1 } in
      if leb cfg.failure_threshold counted.consecutive_failures then trip now counted else counted

  fail_in : CircuitState → ℕ → Breaker → Breaker
  unfolding trip count_failure
  fail_in half_open now b = trip now b
  fail_in closed now b = count_failure now b
  fail_in opened now b = count_failure now b

  unfoldable pub on_failure : ℕ → Breaker → Breaker
  unfolding fail_in
  on_failure now b = fail_in b.state now (record b { probing = false })

  -- `result.is_successful or result.status not in self._trip_on`
  unfoldable pub is_handled {ℓ} : {A : Type ℓ} → Result A → Bool
  is_handled r = Result.is_successful r || not (contains r.status cfg.trip_on)

  -- `_record`
  unfoldable pub record_result {ℓ} : {A : Type ℓ} → ℕ → Result A → Breaker → Breaker
  record_result now r b = if is_handled r then on_success b else on_failure now b

  -- What `execute` writes when the call is over; `except Exception` does not see a cancellation.
  unfoldable pub settle {ℓ} : {A : Type ℓ} → ℕ → Outcome (Result A) → Breaker → Breaker
  settle now (returned r) b = record_result now r b
  settle now (raised (error kind text)) b = on_failure now b
  settle now (raised cancelled) b = b

  -- `execute`, with no other call of the breaker while `run` waits; `clock` reads the world.
  module _ {ℓ} {W A : Type ℓ} (clock : W → ℕ) where
    abbrev pub rejection : Outcome (Result A)
    rejection = returned (Result.failed_with Status.service_unavailable "circuit breaker is open")

    finish : Outcome (Result A) × W → Breaker → Outcome (Result A) × (Breaker × W)
    finish (o, w) b = (o, (settle (clock w) o b, w))

    unfoldable pub execute :
        Coroutine W (Result A) → Breaker × W → Outcome (Result A) × (Breaker × W)
    unfolding finish
    execute run (b, w) =
        let (admitted, b') = admit (clock w) b in
        if not admitted then (rejection, (b', w)) else finish (run w) b'
