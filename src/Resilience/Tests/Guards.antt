-- ===== src/Resilience/Tests/Guards.antt =====
-- An open breaker in front of a handler and a sender.
use benzene_python.Prelude.{ℕ, ◌+◌, ◌<◌, suc, String, false, ◌≡◌, refl, none, some, [], arith}
use benzene_python.Effect.{returned}
use benzene_python.Results.Result
use benzene_python.Core.Context.{World, Context}
use benzene_python.Core.Outbound.{Sender}
use benzene_python.Core.Pipeline.{Next}
use benzene_python.Resilience.CircuitBreaker.{Config, default_trip_on}
use benzene_python.Resilience.RateLimit
use benzene_python.Resilience.Guards.{
  rate_limit_interception, rate_limiting, interception, guarded, set_result, run_next,
  context_result,
}

abbrev clock : ℕ → ℕ
clock now = now

abbrev cfg : Config
cfg = record { failure_threshold = 2; reset_timeout = 30; trip_on = default_trip_on }

abbrev message : Context String
message = record {
  topic = "orders:place";
  version = "";
  request = "book";
  headers = [];
  result = none;
  ignore_unmatched_topic = false;
}

abbrev handles : Next (World String ℕ)
handles (c, w) = (returned tt, (record c { result = some (Result.created (some "o1")) }, suc w))

abbrev sends : Sender String ℕ String
sends topic m headers w = (returned (Result.ok (some m)), suc w)

early : clock 20 < 5 + cfg.reset_timeout
early = omega arith

abbrev limits : RateLimit.Config
limits = record { refill_rate = 1; burst = 1; unit = 10 }

rate_limit_runs :
    (rate_limit_interception clock limits handles
        (record { tokens = 10; updated_at = 5 }, (message, 5))
      ≡ (
        returned tt,
        (
          record { tokens = 0; updated_at = 5 },
          (record message { result = some (Result.created (some "o1")) }, 6),
        ),
      ))
    × ((rate_limiting clock limits sends "orders:place" "book" none
          (record { tokens = 9; updated_at = 5 }, 5)).1.1
        ≡ 5)
unfolding rate_limit_interception rate_limiting interception guarded set_result run_next
    context_result RateLimit.execute RateLimit.try_acquire RateLimit.spend RateLimit.refill
rate_limit_runs = (refl, refl)
