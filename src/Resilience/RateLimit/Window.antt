-- ===== src/Resilience/RateLimit/Window.antt =====
-- The token bucket bounds what it lets through in any stretch of time, and refills in time.
use native.Mathlib.Nat.{mul-le-mul_right}
use benzene_python.Prelude.{
  ℕ, Bool, true, false, ◌+◌, ◌-◌, ◌*◌, ◌≤◌, ◌≡◌, List, [], ◌∷◌, arith, if◌then◌else◌, All, refl,
  some, Bool-cases, inl, inr, ltb, ap, ◌<◌,
}
use benzene_python.Resilience.RateLimit.{
  Config, Limiter, ceiling, create, refill, spend, try_acquire,
}

-- The bucket never holds more than its ceiling.
abbrev pub IsBounded : Config → Limiter → Type 0
IsBounded cfg l = l.tokens ≤ ceiling cfg

-- How many of the calls at these clock readings are let through, and the bucket after them.
unfoldable pub admitted : Config → List ℕ → Limiter → ℕ × Limiter
admitted cfg [] l = (0, l)
admitted cfg (now ∷ times) l =
    let (n, l') = admitted cfg times (try_acquire cfg now l).1 in
    (if (try_acquire cfg now l).0 then n + 1 else n, l')

sub_mul : (a u r : ℕ) → u ≤ a → (a - u) * r + u * r ≡ a * r
sub_mul a u r h =
    let whole : a - u + u ≡ a = omega arith in omega (arith, ap (λ (t : ℕ). t * r) whole)

module _ (cfg : Config) where
  -- A refill adds at most what the rate gives for the time passed.
  refill_bound :
      (now : ℕ) (l : Limiter)
      → ((refill cfg now l).tokens + l.updated_at * cfg.refill_rate
          ≤ l.tokens + (refill cfg now l).updated_at * cfg.refill_rate)
        × (l.updated_at ≤ (refill cfg now l).updated_at)
        × ((t : ℕ) → now ≤ t → l.updated_at ≤ t → (refill cfg now l).updated_at ≤ t)
  unfolding refill
  refill_bound now l = elim (Bool-cases (ltb l.updated_at now)) [
    | inl later ↦ rw later (
      omega (arith, sub_mul now l.updated_at cfg.refill_rate (ground arith)),
      ground arith,
      λ t h k. h,
    )
    | inr same ↦ rw same (omega arith, omega arith, λ t h k. k)
  ]

  spend_bound :
      (l : Limiter)
      → ((spend cfg l).1.tokens + (if (spend cfg l).0 then cfg.unit else 0) ≡ l.tokens)
        × ((spend cfg l).1.updated_at ≡ l.updated_at)
  unfolding spend
  spend_bound l = ground arith

  abbrev spent : Bool → ℕ
  spent b = if b then cfg.unit else 0

  acquire_bound :
      (now : ℕ) (l : Limiter)
      → ((try_acquire cfg now l).1.tokens
            + spent (try_acquire cfg now l).0
            + l.updated_at * cfg.refill_rate
          ≤ l.tokens + (try_acquire cfg now l).1.updated_at * cfg.refill_rate)
        × ((t : ℕ) → now ≤ t → l.updated_at ≤ t → (try_acquire cfg now l).1.updated_at ≤ t)
  unfolding try_acquire
  acquire_bound now l =
      let filled = refill_bound now l in
      let spending = spend_bound (refill cfg now l) in
      (rw spending.1 (omega arith), λ t h k. rw spending.1 (filled.2 t h k))

  counted : (b : Bool) (n : ℕ) → (if b then n + 1 else n) * cfg.unit ≡ n * cfg.unit + spent b
  counted true n = omega arith
  counted false n = omega arith

  admitted_bound :
      (times : List ℕ) (l : Limiter)
      → (admitted cfg times l).0 * cfg.unit
          + (admitted cfg times l).1.tokens
          + l.updated_at * cfg.refill_rate
        ≤ l.tokens + (admitted cfg times l).1.updated_at * cfg.refill_rate
  unfolding admitted
  admitted_bound [] l = omega arith
  admitted_bound (now ∷ times) l =
      let l1 = (try_acquire cfg now l).1 in
      omega (
        arith,
        acquire_bound now l,
        admitted_bound times l1,
        counted (try_acquire cfg now l).0 (admitted cfg times l1).0,
      )

  admitted_until :
      (times : List ℕ) (l : Limiter) (t : ℕ)
      → All (λ now. now ≤ t) times
      → l.updated_at ≤ t
      → (admitted cfg times l).1.updated_at ≤ t
  unfolding admitted
  admitted_until [] l t h k = k
  admitted_until (now ∷ times) l t h k =
      admitted_until times (try_acquire cfg now l).1 t h.1 ((acquire_bound now l).1 t h.0 k)

  -- From the last refill of a bucket within its ceiling, what is let through until a time t costs
  -- at most the ceiling and what the rate gives until then.
  admitted_since :
      (times : List ℕ) (l : Limiter) (t : ℕ)
      → IsBounded cfg l
      → l.updated_at ≤ t
      → All (λ now. now ≤ t) times
      → (admitted cfg times l).0 * cfg.unit ≤ ceiling cfg + (t - l.updated_at) * cfg.refill_rate
  admitted_since times l t bounded k h =
      let stop = (admitted cfg times l).1.updated_at in
      let rate : stop * cfg.refill_rate ≤ t * cfg.refill_rate =
        mul-le-mul_right cfg.refill_rate (admitted_until times l t h k) in
      omega (arith, admitted_bound times l, sub_mul t l.updated_at cfg.refill_rate k, rate)

  -- The bucket stays within its ceiling over any call.
  try_acquire-IsBounded :
      (now : ℕ) (l : Limiter) → IsBounded cfg l → IsBounded cfg (try_acquire cfg now l).1
  unfolding try_acquire refill spend
  try_acquire-IsBounded now l h = ground arith

  admitted-IsBounded :
      (times : List ℕ) (l : Limiter) → IsBounded cfg l → IsBounded cfg (admitted cfg times l).1
  unfolding admitted
  admitted-IsBounded [] l h = h
  admitted-IsBounded (now ∷ times) l h =
      admitted-IsBounded times (try_acquire cfg now l).1 (try_acquire-IsBounded now l h)

  refill-IsBounded : (now : ℕ) (l : Limiter) → IsBounded cfg l → IsBounded cfg (refill cfg now l)
  unfolding refill
  refill-IsBounded now l h = ground arith

  refill_reaches : (now : ℕ) (l : Limiter) → now ≤ (refill cfg now l).updated_at
  unfolding refill
  refill_reaches now l = ground arith

  refill-refill : (now : ℕ) (l : Limiter) → refill cfg now (refill cfg now l) ≡ refill cfg now l
  unfolding refill
  refill-refill now l = ground arith

  admitted-refill :
      (now : ℕ) (times : List ℕ) (l : Limiter)
      → admitted cfg (now ∷ times) (refill cfg now l) ≡ admitted cfg (now ∷ times) l
  unfolding admitted try_acquire
  admitted-refill now times l = rw (refill-refill now l) refl

  -- In a stretch of time [s, t] the calls to a bucket within its ceiling cost at most the ceiling
  -- and what the rate gives in the stretch.
  admitted_within :
      (times : List ℕ) (l : Limiter) (s t : ℕ)
      → IsBounded cfg l
      → l.updated_at ≤ t
      → All (λ now. (s ≤ now) × (now ≤ t)) times
      → (admitted cfg times l).0 * cfg.unit ≤ ceiling cfg + (t - s) * cfg.refill_rate
  admitted_within [] l s t bounded k h = unfold admitted in (omega arith)
  admitted_within (now ∷ times) l s t bounded k h =
      let full = refill cfg now l in
      let until : full.updated_at ≤ t = (refill_bound now l).2 t h.0.1 k in
      let window =
        admitted_since (now ∷ times) full t (refill-IsBounded now l bounded) until
          (h.0.1, before times h.1) in
      let reach = refill_reaches now l in
      let shorter : (t - full.updated_at) * cfg.refill_rate ≤ (t - s) * cfg.refill_rate =
        mul-le-mul_right cfg.refill_rate (omega (arith, h.0.0)) in
      omega (arith, rw (admitted-refill now times l) at window, shorter)
    where
      before :
          (times : List ℕ) → All (λ now. (s ≤ now) × (now ≤ t)) times → All (λ now. now ≤ t) times
      before [] h = tt
      before (now ∷ times) h = (h.0.1, before times h.1)

  -- A call finds a token once the rate has given one since the last refill, whatever was spent
  -- before.
  pub try_acquire_refilled :
      (now : ℕ) (l : Limiter)
      → 1 ≤ cfg.burst
      → l.updated_at < now
      → cfg.unit ≤ (now - l.updated_at) * cfg.refill_rate
      → (try_acquire cfg now l).0 ≡ true
  unfolding try_acquire refill spend
  try_acquire_refilled now l burst later given =
      let room : 1 * cfg.unit ≤ cfg.burst * cfg.unit = mul-le-mul_right cfg.unit burst in
      ground arith

create_full :
    (refill_rate burst unit now : ℕ) (cfg : Config) (l : Limiter)
    → create refill_rate burst unit now ≡ some (cfg, l)
    → IsBounded cfg l × (l.updated_at ≡ now)
unfolding create
create_full refill_rate burst unit now cfg l made = ground arith

-- In any stretch of time [s, t] of a new limiter's life, whatever calls came before, the calls let
-- through at clock readings in the stretch, in any order, cost at most the bucket's ceiling and
-- what the rate gives in that stretch.
pub admitted_window :
    (refill_rate burst unit now : ℕ) (cfg : Config) (l : Limiter) (earlier times : List ℕ) (s t : ℕ)
    → create refill_rate burst unit now ≡ some (cfg, l)
    → now ≤ t
    → All (λ reading. reading ≤ t) earlier
    → All (λ reading. (s ≤ reading) × (reading ≤ t)) times
    → (admitted cfg times (admitted cfg earlier l).1).0 * cfg.unit
      ≤ ceiling cfg + (t - s) * cfg.refill_rate
admitted_window refill_rate burst unit now cfg l earlier times s t made start before within =
    let (full, started) = create_full refill_rate burst unit now cfg l made in
    admitted_within cfg times (admitted cfg earlier l).1 s t (admitted-IsBounded cfg earlier l full)
      (admitted_until cfg earlier l t before (rw started start)) within
