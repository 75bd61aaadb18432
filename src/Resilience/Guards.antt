-- ===== src/Resilience/Guards.antt =====
-- The middleware and the message senders around a circuit breaker and a rate limiter:
-- `circuit_breaker_interception`, `rate_limit_interception`, `CircuitBreakingMessageSender` and
-- `RateLimitingMessageSender` of packages/benzene-resilience/benzene/resilience. What is guarded
-- does not reach the guard.
pub mod Rejections
use benzene_python.Prelude.{ℕ, String, Option, none, some}
use benzene_python.Effect.{Outcome, returned, raised, Coroutine}
use benzene_python.Dict.{Dict}
use benzene_python.Results.Result
use benzene_python.Results.Result.{Result}
use benzene_python.Core.Context.{World, Context}
use benzene_python.Core.Outbound.{Sender}
use benzene_python.Core.Pipeline.{Next, Middleware}
use benzene_python.Resilience.CircuitBreaker
use benzene_python.Resilience.RateLimit

abbrev pub Guard {ℓ} : (G W A : Type ℓ) → Type ℓ
Guard G W A = Coroutine W (Result A) → G × W → Outcome (Result A) × (G × W)

module _ {ℓ} {P W : Type ℓ} where
  -- `context.result if context.result is not None else Result.ok()`
  unfoldable pub context_result : Outcome (Unit {ℓ}) × World P W → Outcome (Result P) × World P W
  context_result (raised x, s) = (raised x, s)
  context_result (returned _, (c, w)) = elim c.result [
    | none ↦ (returned (Result.ok none), (c, w))
    | some r ↦ (returned r, (c, w))
  ]

  -- `run`
  unfoldable pub run_next : Next (World P W) → Coroutine (World P W) (Result P)
  run_next next s = context_result (next s)

module _ {ℓ} {G P W : Type ℓ} where
  -- `context.result = ...`
  unfoldable pub set_result :
      Outcome (Result P) × (G × World P W) → Outcome (Unit {ℓ}) × (G × World P W)
  set_result (raised x, s) = (raised x, s)
  set_result (returned r, (g, (c, w))) = (returned tt, (g, (record c { result = some r }, w)))

  unfoldable pub interception :
      Guard G (World P W) P
      → Next (World P W)
      → G × World P W
      → Outcome (Unit {ℓ}) × (G × World P W)
  interception guard next s = set_result (guard (run_next next) s)

module _ {ℓ} {G M W A : Type ℓ} where
  unfoldable pub guarded : Guard G W A → Sender M W A → Sender M (G × W) A
  guarded guard inner topic message headers = guard (inner topic message headers)

module _ {P W : Type 0} (clock : W → ℕ) where
  unfoldable pub circuit_breaker_interception :
      CircuitBreaker.Config
      → Next (World P W)
      → CircuitBreaker.Breaker × World P W
      → Outcome (Unit {0}) × (CircuitBreaker.Breaker × World P W)
  circuit_breaker_interception cfg =
      interception (CircuitBreaker.execute cfg (λ (s : World P W). clock s.1))

  unfoldable pub rate_limit_interception :
      RateLimit.Config
      → Next (World P W)
      → RateLimit.Limiter × World P W
      → Outcome (Unit {0}) × (RateLimit.Limiter × World P W)
  rate_limit_interception cfg = interception (RateLimit.execute cfg (λ (s : World P W). clock s.1))

module _ {M W A : Type 0} (clock : W → ℕ) where
  -- `CircuitBreakingMessageSender.send_message`
  unfoldable pub circuit_breaking :
      CircuitBreaker.Config → Sender M W A → Sender M (CircuitBreaker.Breaker × W) A
  circuit_breaking cfg = guarded (CircuitBreaker.execute cfg clock)

  -- `RateLimitingMessageSender.send_message`
  unfoldable pub rate_limiting :
      RateLimit.Config → Sender M W A → Sender M (RateLimit.Limiter × W) A
  rate_limiting cfg = guarded (RateLimit.execute cfg clock)
