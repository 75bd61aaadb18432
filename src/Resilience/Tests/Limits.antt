-- ===== src/Resilience/Tests/Limits.antt =====
-- The rate limiter and the bulkhead at concrete calls.
use benzene_python.Prelude.{
  ℕ, zero, suc, ◌+◌, ◌-◌, ◌*◌, ◌≤◌, true, false, ◌≡◌, ◌↔◌, refl, Option, none, some, [], ◌∷◌, arith,
}
use benzene_python.Resilience.RateLimit
use benzene_python.Resilience.RateLimit.{Limiter, ceiling, try_acquire}
use benzene_python.Resilience.RateLimit.Window.{admitted, admitted_window, try_acquire_refilled}
use benzene_python.Resilience.Bulkhead
use benzene_python.Resilience.Bulkhead.{Semaphore, Limits, capacity, arrive, enter}
use benzene_python.Resilience.Bulkhead.Threads.{start, next, arrives, Reach-bounds}

-- two tokens a tick in a bucket of three
abbrev cfg : RateLimit.Config
cfg = record { refill_rate = 2; burst = 3; unit = 1 }

abbrev half_full : Limiter
half_full = record { tokens = 1; updated_at = 10 }

window_runs : (admitted cfg (10 ∷ 10 ∷ 11 ∷ 11 ∷ 11 ∷ []) half_full).0 ≡ 3
unfolding admitted try_acquire RateLimit.refill RateLimit.spend
window_runs = refl

abbrev full : Limiter
full = record { tokens = 3; updated_at = 5 }

created : RateLimit.create 2 3 1 5 ≡ some (cfg, full)
unfolding RateLimit.create
created = refl

admitted_window_example :
    (admitted cfg (10 ∷ 10 ∷ 11 ∷ 11 ∷ 11 ∷ []) (admitted cfg (5 ∷ 6 ∷ []) full).1).0 * cfg.unit
    ≤ ceiling cfg + (11 - 10) * cfg.refill_rate
admitted_window_example =
    admitted_window 2 3 1 5 cfg full (5 ∷ 6 ∷ []) (10 ∷ 10 ∷ 11 ∷ 11 ∷ 11 ∷ []) 10 11 created
      (omega arith) (omega arith) (omega arith)

abbrev empty : Limiter
empty = record { tokens = 0; updated_at = 10 }

try_acquire_refilled_example : (try_acquire cfg 11 empty).0 ≡ true
try_acquire_refilled_example =
    try_acquire_refilled cfg 11 empty (omega arith) (omega arith) (omega arith)

-- a semaphore that only counts
abbrev take_slot : ℕ → Option ℕ
take_slot zero = none
take_slot (suc n) = some n

waits : (n : ℕ) → (take_slot n ≡ none) ↔ (n ≡ 0)
waits zero = ground arith
waits (suc n) = ground arith

takes : (n m : ℕ) → take_slot n ≡ some m → m + 1 ≡ n
takes zero m h = absurd (cc)
takes (suc n) m h = ground arith

abbrev counting : Semaphore
counting = record {
  Sem = ℕ;
  create = λ n. n;
  acquire = take_slot;
  release = λ n. n + 1;
  free = λ n. n;
  free-create = λ n. refl;
  acquire_waits = waits;
  free-acquire = takes;
  free-release = λ n. refl;
}

abbrev one_slot : Limits
one_slot = record { max_concurrency = 1; max_queue = 1 }

abbrev one_waits : Bulkhead.Bulkhead counting one_slot
one_waits = (arrive counting one_slot (Bulkhead.fresh counting one_slot)).1

Reach-bounds_example :
    (one_waits.running ≤ one_slot.max_concurrency)
    × (one_waits.in_flight ≡ one_waits.waiting + one_waits.running)
    × (one_waits.in_flight ≤ capacity one_slot)
    × (((arrive counting one_slot one_waits).0 ≡ false)
        ↔ (one_waits.waiting + one_waits.running ≡ capacity one_slot))
    × ((enter counting one_slot one_waits ≡ none) ↔ (one_waits.running ≡ one_slot.max_concurrency))
Reach-bounds_example =
    Reach-bounds counting one_slot {b = one_waits}
      (next start (arrives (Bulkhead.fresh counting one_slot)))
