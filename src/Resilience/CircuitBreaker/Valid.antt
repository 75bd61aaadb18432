-- ===== src/Resilience/CircuitBreaker/Valid.antt =====
-- The invariant of the breaker, and that each of its transitions keeps it.
use benzene_python.Prelude.{
  ℕ, Bool, true, false, ◌≡◌, ◌≤◌, ◌<◌, ◌+◌, arith, Bool-cases, inl, inr, leb,
}
use benzene_python.Effect.{Outcome, returned, raised, error, cancelled}
use benzene_python.Results.Result.{Result}
use benzene_python.Resilience.CircuitBreaker.{
  CircuitState, closed, opened, half_open, Config, Breaker, fresh, admit, on_success, on_failure,
  record_result, is_handled, settle,
}

abbrev pub ValidIn : Config → CircuitState → Breaker → Type 0
ValidIn cfg closed b = (b.consecutive_failures < cfg.failure_threshold) × (b.probing ≡ false)
ValidIn cfg opened b = (cfg.failure_threshold ≤ b.consecutive_failures) × (b.probing ≡ false)
ValidIn cfg half_open b = (cfg.failure_threshold ≤ b.consecutive_failures) × (b.probing ≡ true)

-- A closed breaker has counted fewer failures than trip it, any other at least as many, and a probe
-- is out exactly while the breaker is half-open.
abbrev pub IsValid : Config → Breaker → Type 0
IsValid cfg b = ValidIn cfg b.state b

abbrev breaker : CircuitState → ℕ → ℕ → Bool → Breaker
breaker s n t p = record { state = s; consecutive_failures = n; opened_at = t; probing = p }

module _ (cfg : Config) where
  pub IsValid-fresh : 1 ≤ cfg.failure_threshold → IsValid cfg fresh
  IsValid-fresh h = ground arith

  admit_parts :
      (s : CircuitState) (n t : ℕ) (p : Bool) (now : ℕ)
      → IsValid cfg (breaker s n t p)
      → IsValid cfg (admit cfg now (breaker s n t p)).1
  unfolding admit
  admit_parts closed n t p now v = v
  admit_parts opened n t p now v = ground arith
  admit_parts half_open n t p now v = ground arith

  pub admit-IsValid : (now : ℕ) (b : Breaker) → IsValid cfg b → IsValid cfg (admit cfg now b).1
  admit-IsValid now b v = admit_parts b.state b.consecutive_failures b.opened_at b.probing now v

  pub on_success-IsValid :
      (b : Breaker) → 1 ≤ cfg.failure_threshold → IsValid cfg (on_success cfg b)
  unfolding on_success
  on_success-IsValid b h = ground arith

  failure_parts :
      (s : CircuitState) (n t : ℕ) (p : Bool) (now : ℕ)
      → IsValid cfg (breaker s n t p)
      → IsValid cfg (on_failure cfg now (breaker s n t p))
  unfolding on_failure
  failure_parts closed n t p now v = elim (Bool-cases (leb cfg.failure_threshold (n + 1))) [
    | inl full ↦ rw full (ground arith)
    | inr room ↦ rw room (ground arith)
  ]
  failure_parts opened n t p now v = elim (Bool-cases (leb cfg.failure_threshold (n + 1))) [
    | inl full ↦ rw full (ground arith)
    | inr room ↦ absurd (ground arith)
  ]
  failure_parts half_open n t p now v = ground arith

  pub on_failure-IsValid :
      (now : ℕ) (b : Breaker) → IsValid cfg b → IsValid cfg (on_failure cfg now b)
  on_failure-IsValid now b v =
      failure_parts b.state b.consecutive_failures b.opened_at b.probing now v

  module _ {ℓ} {A : Type ℓ} (h : 1 ≤ cfg.failure_threshold) where
    record_result-IsValid :
        (now : ℕ) (r : Result A) (b : Breaker)
        → IsValid cfg b
        → IsValid cfg (record_result cfg now r b)
    unfolding record_result
    record_result-IsValid now r b v = elim (Bool-cases (is_handled cfg r)) [
      | inl handled ↦ rw handled (on_success-IsValid b h)
      | inr tripping ↦ rw tripping (on_failure-IsValid now b v)
    ]

    pub settle-IsValid :
        (now : ℕ) (o : Outcome (Result A)) (b : Breaker)
        → IsValid cfg b
        → IsValid cfg (settle cfg now o b)
    unfolding settle
    settle-IsValid now (returned r) b v = record_result-IsValid now r b v
    settle-IsValid now (raised (error k t)) b v = on_failure-IsValid now b v
    settle-IsValid now (raised cancelled) b v = v
