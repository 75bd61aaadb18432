-- ===== src/Resilience/CircuitBreaker/Threads.antt =====
-- Interleaved calls of one breaker: the task that admits a call and the task that settles it run in
-- any order, at any clock readings.
use benzene_python.Prelude.{ℕ, Bool, true, ◌≡◌, ◌≤◌, ◌<◌, ◌+◌, ◌-◌, ◌↔◌, ◌⊎◌, arith, if◌then◌else◌}
use benzene_python.Effect.{Outcome}
use benzene_python.Results.Result.{Result}
use benzene_python.Resilience.CircuitBreaker.{
  CircuitState, closed, opened, half_open, Config, Breaker, fresh, admit, settle,
}
use benzene_python.Resilience.CircuitBreaker.Valid.{
  IsValid, IsValid-fresh, admit-IsValid, settle-IsValid,
}

-- a breaker, and how many admitted calls have not ended
pub record Calls : Type 0 where
  pub breaker : Breaker
  pub running : ℕ

unfoldable pub begin_call : Config → ℕ → Calls → Calls
begin_call cfg now s =
    let (admitted, b) = admit cfg now s.breaker in
    record { breaker = b; running = if admitted then s.running + 1 else s.running }

unfoldable pub end_call : {A : Type 0} → Config → ℕ → Outcome (Result A) → Calls → Calls
end_call cfg now o s = record { breaker = settle cfg now o s.breaker; running = s.running - 1 }

module _ (cfg : Config) (A : Type 0) where
  pub data Step : Calls → Calls → Type 0 where
    begins : (now : ℕ) (s : Calls) → Step s (begin_call cfg now s)
    ends :
        (now : ℕ) (o : Outcome (Result A)) (s : Calls)
        → 0 < s.running
        → Step s (end_call cfg now o s)

  pub data Reach : Calls → Type 0 where
    start : Reach (record { breaker = fresh; running = 0 })
    next : {s t : Calls} → Reach s → Step s t → Reach t

  module _ (h : 1 ≤ cfg.failure_threshold) where
    Step-IsValid : {s t : Calls} → Step s t → IsValid cfg s.breaker → IsValid cfg t.breaker
    unfolding begin_call end_call
    Step-IsValid (begins now s) v = admit-IsValid cfg now s.breaker v
    Step-IsValid (ends now o s p) v = settle-IsValid cfg h now o s.breaker v

    Reach-IsValid : {s : Calls} → Reach s → IsValid cfg s.breaker
    Reach-IsValid start = IsValid-fresh cfg h
    Reach-IsValid (next r st) = Step-IsValid st (Reach-IsValid r)

admits_parts :
    (cfg : Config) (s : CircuitState) (n t : ℕ) (p : Bool) (now : ℕ)
    → let b : Breaker = record {
      state = s;
      consecutive_failures = n;
      opened_at = t;
      probing = p;
    } in
      IsValid cfg b
      → ((admit cfg now b).0 ≡ true)
        ↔ ((s ≡ closed) ⊎ ((s ≡ opened) × (t + cfg.reset_timeout ≤ now)))
unfolding admit
admits_parts cfg closed n t p now v = ground arith
admits_parts cfg opened n t p now v = ground arith
admits_parts cfg half_open n t p now v = ground arith

-- The breaker that a call let through leaves behind: half-open if the call is a probe.
abbrev pub entered_in : CircuitState → Breaker → Breaker
entered_in opened b = record b { state = half_open; probing = true }
entered_in closed b = b
entered_in half_open b = b

kept_parts :
    (cfg : Config) (s : CircuitState) (n t : ℕ) (p : Bool) (now : ℕ)
    → let b : Breaker = record {
      state = s;
      consecutive_failures = n;
      opened_at = t;
      probing = p;
    } in
      IsValid cfg b → (admit cfg now b).1 ≡ (if (admit cfg now b).0 then entered_in s b else b)
unfolding admit
kept_parts cfg closed n t p now v = ground arith
kept_parts cfg opened n t p now v = ground arith
kept_parts cfg half_open n t p now v = ground arith

-- In every state that interleaved calls can reach (a threshold of at least one), the breaker is
-- valid; a new call is let through exactly when the breaker is closed, or is open with its reset
-- timeout elapsed; a call let through while it is open leaves it half-open, so that no further call
-- is let through until a call ends, and any other call, let through or rejected, leaves it as it
-- was.
pub Reach-admit :
    (cfg : Config) {A : Type 0} {s : Calls} (now : ℕ)
    → 1 ≤ cfg.failure_threshold
    → Reach cfg A s
    → IsValid cfg s.breaker
      × (((admit cfg now s.breaker).0 ≡ true) ↔ (
          (s.breaker.state ≡ closed)
          ⊎ ((s.breaker.state ≡ opened) × (s.breaker.opened_at + cfg.reset_timeout ≤ now))))
      × ((admit cfg now s.breaker).1 ≡ (
          if (admit cfg now s.breaker).0 then entered_in s.breaker.state s.breaker else s.breaker))
Reach-admit cfg {A} {s} now h r =
    let v : IsValid cfg s.breaker = Reach-IsValid cfg A h r in
    let b = s.breaker in
    (
      v,
      admits_parts cfg b.state b.consecutive_failures b.opened_at b.probing now v,
      kept_parts cfg b.state b.consecutive_failures b.opened_at b.probing now v,
    )
