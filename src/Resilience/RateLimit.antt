-- ===== src/Resilience/RateLimit.antt =====
-- packages/benzene-resilience/benzene/resilience/rate_limit.py. Tokens are counted in units, so
-- many to a token, and the refill rate in units a tick: the rational numbers that the code's floats
-- stand for, with their rounding left out.
pub mod Window
use benzene_python.Prelude.{
  ℕ, String, Bool, true, false, not, ◌+◌, ◌-◌, ◌*◌, min, max, Option, none, some, if◌then◌else◌,
  leb, ltb, nat_eqb,
}
use benzene_python.Effect.{Outcome, returned, Coroutine}
use benzene_python.Results.Status
use benzene_python.Results.Result
use benzene_python.Results.Result.{Result}

pub record Config : Type 0 where
  pub refill_rate : ℕ
  pub burst : ℕ
  pub unit : ℕ

pub record Limiter : Type 0 where
  pub tokens : ℕ
  pub updated_at : ℕ

-- `float(self._burst)`, in units
abbrev pub ceiling : Config → ℕ
ceiling cfg = cfg.burst * cfg.unit

-- `__init__` at a clock reading; `none` is the `ValueError` for a rate that is not positive
unfoldable pub create : ℕ → ℕ → ℕ → ℕ → Option (Config × Limiter)
create refill_rate burst unit now =
    let cfg : Config = record { refill_rate = refill_rate; burst = max 1 burst; unit = unit } in
    if nat_eqb refill_rate 0
    then none
    else some (cfg, record { tokens = ceiling cfg; updated_at = now })

module _ (cfg : Config) where
  -- `_refill`
  unfoldable pub refill : ℕ → Limiter → Limiter
  refill now l =
      if ltb l.updated_at now
      then record {
        tokens = min (ceiling cfg) (l.tokens + (now - l.updated_at) * cfg.refill_rate);
        updated_at = now;
      }
      else l

  -- the property `available`, which refills too
  unfoldable pub available : ℕ → Limiter → ℕ × Limiter
  available now l = ((refill now l).tokens, refill now l)

  -- spends a token of a refilled bucket
  unfoldable pub spend : Limiter → Bool × Limiter
  spend l =
      if leb cfg.unit l.tokens
      then (true, record l { tokens = l.tokens - cfg.unit })
      else (false, l)

  -- `_try_acquire`
  unfoldable pub try_acquire : ℕ → Limiter → Bool × Limiter
  try_acquire now l = spend (refill now l)

  module _ {ℓ} {W A : Type ℓ} (clock : W → ℕ) where
    abbrev pub rejection : Outcome (Result A)
    rejection = returned (Result.failed_with Status.too_many_requests "rate limit exceeded")

    unfoldable pub execute :
        Coroutine W (Result A) → Limiter × W → Outcome (Result A) × (Limiter × W)
    execute run (l, w) =
        let (acquired, l') = try_acquire (clock w) l in
        if not acquired then (rejection, (l', w)) else ((run w).0, (l', (run w).1))
