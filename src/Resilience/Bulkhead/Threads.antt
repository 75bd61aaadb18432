-- ===== src/Resilience/Bulkhead/Threads.antt =====
-- The bulkhead under interleaved calls.
use benzene_python.Prelude.{
  false, ◌+◌, ◌≤◌, ◌<◌, ◌≡◌, ◌↔◌, some, none, arith, Option-cases, inl, inr,
}
use benzene_python.Resilience.Bulkhead.{
  Semaphore, Limits, capacity, Bulkhead, fresh, arrive, enter, leave, abandon,
}

module _ (sm : Semaphore) (limits : Limits) where
  pub data Step : Bulkhead sm limits → Bulkhead sm limits → Type 0 where
    arrives : (b : Bulkhead sm limits) → Step b (arrive sm limits b).1
    enters : {b c : Bulkhead sm limits} → 0 < b.waiting → enter sm limits b ≡ some c → Step b c
    leaves : (b : Bulkhead sm limits) → 0 < b.running → Step b (leave sm limits b)
    abandons : (b : Bulkhead sm limits) → 0 < b.waiting → Step b (abandon sm limits b)

  pub data Reach : Bulkhead sm limits → Type 0 where
    start : Reach (fresh sm limits)
    next : {b c : Bulkhead sm limits} → Reach b → Step b c → Reach c

  pub record IsValid (b : Bulkhead sm limits) : Type 0 where
    pub counted : b.in_flight ≡ b.waiting + b.running
    pub held : b.running + sm.free b.semaphore ≡ limits.max_concurrency
    pub within : b.in_flight ≤ capacity limits

  IsValid-fresh : IsValid (fresh sm limits)
  IsValid-fresh = record {
    counted = omega arith;
    held = omega (arith, sm.free-create limits.max_concurrency);
    within = omega arith;
  }

  IsValid-arrive : (b : Bulkhead sm limits) → IsValid b → IsValid (arrive sm limits b).1
  unfolding arrive
  IsValid-arrive b v = record { counted = ground arith; held = ground arith; within = ground arith }

  IsValid-enter :
      (b c : Bulkhead sm limits)
      → 0 < b.waiting
      → enter sm limits b ≡ some c
      → IsValid b
      → IsValid c
  unfolding enter
  IsValid-enter b c h e v = elim (Option-cases (sm.acquire b.semaphore)) [
    | inl waits ↦ absurd (ground arith)
    | inr (s, taken) ↦
        let left = sm.free-acquire b.semaphore s taken in
        record { counted = ground arith; held = ground arith; within = ground arith }
  ]

  IsValid-leave : (b : Bulkhead sm limits) → 0 < b.running → IsValid b → IsValid (leave sm limits b)
  unfolding leave
  IsValid-leave b h v = record {
    counted = omega arith;
    held = omega (arith, sm.free-release b.semaphore);
    within = omega arith;
  }

  IsValid-abandon :
      (b : Bulkhead sm limits) → 0 < b.waiting → IsValid b → IsValid (abandon sm limits b)
  unfolding abandon
  IsValid-abandon b h v = record { counted = omega arith; held = omega arith; within = omega arith }

  Step-IsValid : {b c : Bulkhead sm limits} → Step b c → IsValid b → IsValid c
  Step-IsValid (arrives b) v = IsValid-arrive b v
  Step-IsValid (enters {b} {c} h e) v = IsValid-enter b c h e v
  Step-IsValid (leaves b h) v = IsValid-leave b h v
  Step-IsValid (abandons b h) v = IsValid-abandon b h v

  Reach-IsValid : {b : Bulkhead sm limits} → Reach b → IsValid b
  Reach-IsValid start = IsValid-fresh
  Reach-IsValid (next r st) = Step-IsValid st (Reach-IsValid r)

  enter-none :
      (b : Bulkhead sm limits)
      → IsValid b
      → (enter sm limits b ≡ none) ↔ (b.running ≡ limits.max_concurrency)
  unfolding enter
  enter-none b v = elim (Option-cases (sm.acquire b.semaphore)) [
    | inl waits ↦ let full = (sm.acquire_waits b.semaphore).0 waits in ground arith
    | inr (s, taken) ↦ let left = sm.free-acquire b.semaphore s taken in ground arith
  ]

  -- In every state that interleaved calls can reach, at most `max_concurrency` calls run, those
  -- running and waiting are the calls in flight and are no more than the capacity; a new call is
  -- shed exactly when they fill the capacity, and a waiting call has to go on waiting exactly when
  -- every slot is taken.
  pub Reach-bounds :
      {b : Bulkhead sm limits}
      → Reach b
      → (b.running ≤ limits.max_concurrency)
        × (b.in_flight ≡ b.waiting + b.running)
        × (b.in_flight ≤ capacity limits)
        × (((arrive sm limits b).0 ≡ false) ↔ (b.waiting + b.running ≡ capacity limits))
        × ((enter sm limits b ≡ none) ↔ (b.running ≡ limits.max_concurrency))
  unfolding arrive
  Reach-bounds {b} r =
      let v = Reach-IsValid r in
      (
        omega (arith, v.held),
        v.counted,
        v.within,
        ground (arith, v.counted, v.within),
        enter-none b v,
      )
