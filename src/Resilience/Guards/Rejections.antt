-- ===== src/Resilience/Guards/Rejections.antt =====
-- What a guard that rejects does to a message.
use benzene_python.Prelude.{ℕ, ◌+◌, ◌<◌, String, Bool, false, ◌≡◌, refl, Option, some, arith}
use benzene_python.Effect.{returned}
use benzene_python.Dict.{Dict}
use benzene_python.Results.Status
use benzene_python.Results.Result
use benzene_python.Core.Context.{World, Context}
use benzene_python.Core.Outbound.{Sender}
use benzene_python.Core.Pipeline.{Next}
use benzene_python.Resilience.CircuitBreaker
use benzene_python.Resilience.CircuitBreaker.{Config, Breaker, opened}
use benzene_python.Resilience.Guards.{
  set_result, interception, guarded, circuit_breaker_interception, circuit_breaking,
}

-- an open breaker, by its other fields
abbrev pub open_breaker : ℕ → ℕ → Bool → Breaker
open_breaker failures opened_at probing = record {
  state = opened;
  consecutive_failures = failures;
  opened_at = opened_at;
  probing = probing;
}

refuses :
    (cfg : Config) (now n t : ℕ) (p : Bool)
    → now < t + cfg.reset_timeout
    → CircuitBreaker.admit cfg now (open_breaker n t p) ≡ (false, open_breaker n t p)
unfolding CircuitBreaker.admit CircuitBreaker.reset_elapsed
refuses cfg now n t p early = ground arith

module _ {P M W : Type 0} (clock : W → ℕ) (cfg : Config) where
  -- While the breaker is open and its reset timeout has not passed, neither the rest of the
  -- pipeline nor the guarded sender runs: the message is answered service-unavailable, and the
  -- breaker and the world stay as they are.
  pub open_rejects :
      (next : Next (World P W)) (inner : Sender M W P) (topic : String) (message : M)
      (headers : Option (Dict String String)) (c : Context P) (w : W) (n t : ℕ) (p : Bool)
      → clock w < t + cfg.reset_timeout
      → let rejected = Result.failed_with Status.service_unavailable "circuit breaker is open" in
        (circuit_breaker_interception clock cfg next (open_breaker n t p, (c, w))
          ≡ (returned tt, (open_breaker n t p, (record c { result = some rejected }, w))))
        × (circuit_breaking clock cfg inner topic message headers (open_breaker n t p, w)
            ≡ (returned rejected, (open_breaker n t p, w)))
  unfolding circuit_breaker_interception circuit_breaking interception guarded set_result
      CircuitBreaker.execute
  open_rejects next inner topic message headers c w n t p early =
      let refused = refuses cfg (clock w) n t p early in (rw refused refl, rw refused refl)
