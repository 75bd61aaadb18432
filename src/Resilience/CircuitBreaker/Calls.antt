-- ===== src/Resilience/CircuitBreaker/Calls.antt =====
-- The breaker under calls that do not overlap, against a machine with two states.
use benzene_python.Prelude.{
  ℕ, Bool, true, false, not, ◌≡◌, ◌≢◌, ◌≤◌, ◌+◌, arith, refl, if◌then◌else◌, leb, Bool-cases, inl,
  inr,
}
use benzene_python.Effect.{error, cancelled, Outcome, returned, raised, Coroutine}
use benzene_python.Results.Result.{Result}
use benzene_python.Resilience.CircuitBreaker.{
  CircuitState, closed, opened, half_open, Config, Breaker, is_handled, admit, on_success,
  on_failure, settle, record_result, rejection, execute,
}
use benzene_python.Resilience.CircuitBreaker.Valid.{IsValid}

-- The abstract machine: a count of consecutive failures, or the time at which the circuit tripped.
pub data Circuit : Type 0 where
  healthy : ℕ → Circuit
  tripped : ℕ → Circuit

-- What a breaker stands for between calls.
abbrev view_in : CircuitState → Breaker → Circuit
view_in closed b = healthy b.consecutive_failures
view_in opened b = tripped b.opened_at
view_in half_open b = tripped b.opened_at

abbrev pub view : Breaker → Circuit
view b = view_in b.state b

-- A failure that counts: a tripping status, or any exception.
abbrev pub failed {ℓ} : {A : Type ℓ} → Config → Outcome (Result A) → Bool
failed cfg (returned r) = not (is_handled cfg r)
failed cfg (raised x) = true

abbrev pub after_failure : Config → ℕ → ℕ → Circuit
after_failure cfg now n = if leb cfg.failure_threshold (n + 1) then tripped now else healthy (n + 1)

module _ {ℓ} (cfg : Config) {W A : Type ℓ} (clock : W → ℕ) where
  abbrev pub after_call : Circuit → Outcome (Result A) → ℕ → Circuit
  after_call (healthy n) o now = if failed cfg o then after_failure cfg now n else healthy 0
  after_call (tripped t) o now = if failed cfg o then tripped now else healthy 0

  abbrev pub spec_execute :
      Coroutine W (Result A) → Circuit × W → Outcome (Result A) × (Circuit × W)
  spec_execute run (healthy n, w) =
      let (o, w') = run w in (o, (after_call (healthy n) o (clock w'), w'))
  spec_execute run (tripped t, w) =
      if leb (t + cfg.reset_timeout) (clock w)
      then (let (o, w') = run w in (o, (after_call (tripped t) o (clock w'), w')))
      else (rejection cfg clock, (tripped t, w))

module _ {ℓ} (cfg : Config) {A : Type ℓ} where
  -- A call that ends settles its breaker as the machine says, unless it was cancelled.
  settle_closed :
      (o : Outcome (Result A)) (n t now : ℕ)
      → o ≢ raised cancelled
      → let b : Breaker =
          settle cfg now o
            (record { state = closed; consecutive_failures = n; opened_at = t; probing = false }) in
        (view b ≡ (if failed cfg o then after_failure cfg now n else healthy 0))
        × (b.state ≢ half_open)
  unfolding settle record_result on_success on_failure
  settle_closed (returned r) n t now h = ground arith
  settle_closed (raised (error k m)) n t now h = ground arith
  settle_closed (raised cancelled) n t now h = absurd (h refl)

  settle_probe :
      (o : Outcome (Result A)) (n t now : ℕ)
      → o ≢ raised cancelled
      → let b : Breaker =
          settle cfg now o (record {
            state = half_open;
            consecutive_failures = n;
            opened_at = t;
            probing = true;
          }) in
        (view b ≡ (if failed cfg o then tripped now else healthy 0)) × (b.state ≢ half_open)
  unfolding settle record_result on_success on_failure
  settle_probe (returned r) n t now h = ground arith
  settle_probe (raised (error k m)) n t now h = ground arith
  settle_probe (raised cancelled) n t now h = absurd (h refl)

module _ {ℓ} (cfg : Config) {W A : Type ℓ} (clock : W → ℕ) (run : Coroutine W (Result A)) where
  execute_parts :
      (s : CircuitState) (n t : ℕ) (w : W)
      → let b : Breaker = record {
        state = s;
        consecutive_failures = n;
        opened_at = t;
        probing = false;
      } in
        s ≢ half_open
        → (run w).0 ≢ raised cancelled
        → let (o, (b', w')) = execute cfg clock run (b, w) in
          ((o, (view b', w')) ≡ spec_execute cfg clock run (view b, w)) × (b'.state ≢ half_open)
  unfolding execute admit
  execute_parts closed n t w rest ended =
      let settled = settle_closed cfg (run w).0 n t (clock (run w).1) ended in
      (ground (arith, settled.0), settled.1)
  execute_parts opened n t w rest ended =
      let settled = settle_probe cfg (run w).0 n t (clock (run w).1) ended in
      elim (Bool-cases (leb (t + cfg.reset_timeout) (clock w))) [
        | inl due ↦ rw due (ground (arith, settled.0), settled.1)
        | inr early ↦ rw early (refl, ground arith)
      ]
  execute_parts half_open n t w rest ended = absurd (rest refl)

  valid_parts :
      (s : CircuitState) (n t : ℕ) (p : Bool) (w : W)
      → let b : Breaker = record {
        state = s;
        consecutive_failures = n;
        opened_at = t;
        probing = p;
      } in
        IsValid cfg b
        → s ≢ half_open
        → (run w).0 ≢ raised cancelled
        → let (o, (b', w')) = execute cfg clock run (b, w) in
          ((o, (view b', w')) ≡ spec_execute cfg clock run (view b, w)) × (b'.state ≢ half_open)
  valid_parts s n t false w v rest ended = execute_parts s n t w rest ended
  valid_parts closed n t true w v rest ended = absurd (ground arith)
  valid_parts opened n t true w v rest ended = absurd (ground arith)
  valid_parts half_open n t true w v rest ended = absurd (rest refl)

  -- Between calls that do not overlap, a valid breaker that is not half-open is the machine with
  -- two states: a call that is not cancelled returns what the machine returns (the result of the
  -- guarded call, or the rejection), leaves the world as the machine leaves it (untouched on a
  -- rejection), and leaves a breaker that stands for the machine's next state and is again not
  -- half-open.
  pub execute-spec_execute :
      (b : Breaker) (w : W)
      → IsValid cfg b
      → b.state ≢ half_open
      → (run w).0 ≢ raised cancelled
      → let (o, (b', w')) = execute cfg clock run (b, w) in
        ((o, (view b', w')) ≡ spec_execute cfg clock run (view b, w)) × (b'.state ≢ half_open)
  execute-spec_execute b w v rest ended =
      valid_parts b.state b.consecutive_failures b.opened_at b.probing w v rest ended

  -- Where calls run one after another, none being still in flight from before the probe, a breaker
  -- whose probe was cancelled stays half-open: once a call let through after the reset timeout is
  -- cancelled, every later call, whatever it would do and however late it comes, is rejected
  -- without being run and leaves the breaker in the same state.
  pub execute_cancelled_probe :
      (b : Breaker) (w w' : W) (later : Coroutine W (Result A))
      → b.state ≡ opened
      → b.opened_at + cfg.reset_timeout ≤ clock w
      → (run w).0 ≡ raised cancelled
      → let stuck = (execute cfg clock run (b, w)).1.0 in
        execute cfg clock later (stuck, w') ≡ (rejection cfg clock, (stuck, w'))
  unfolding execute admit settle
  execute_cancelled_probe b w w' later tripped_at due cut = ground arith
