-- ===== src/Resilience/Bulkhead.antt =====
-- packages/benzene-resilience/benzene/resilience/bulkhead.py. `asyncio.Semaphore` is a parameter.
pub mod Threads
use benzene_python.Prelude.{
  ℕ, String, Bool, true, false, ◌+◌, ◌-◌, ◌≡◌, ◌↔◌, max, Option, none, some, if◌then◌else◌, leb,
}

-- What the bulkhead uses of `asyncio.Semaphore`: `none` is an `acquire` that has to wait.
pub record Semaphore : Type 1 where
  pub Sem : Type 0
  pub create : ℕ → Sem
  pub acquire : Sem → Option Sem
  pub release : Sem → Sem
  pub free : Sem → ℕ
  pub free-create : (n : ℕ) → free (create n) ≡ n
  pub acquire_waits : (s : Sem) → (acquire s ≡ none) ↔ (free s ≡ 0)
  pub free-acquire : (s t : Sem) → acquire s ≡ some t → free t + 1 ≡ free s
  pub free-release : (s : Sem) → free (release s) ≡ free s + 1

pub record Limits : Type 0 where
  pub max_concurrency : ℕ
  pub max_queue : ℕ

-- `__init__`
unfoldable pub configure : ℕ → ℕ → Limits
configure max_concurrency max_queue = record {
  max_concurrency = max 1 max_concurrency;
  max_queue = max 0 max_queue;
}

abbrev pub capacity : Limits → ℕ
capacity l = l.max_concurrency + l.max_queue

module _ (sm : Semaphore) (limits : Limits) where
  open sm use {Sem, create, acquire, release}

  -- the object, with the calls that wait at the semaphore and those that run under it
  pub record Bulkhead : Type 0 where
    pub in_flight : ℕ
    pub semaphore : Sem
    pub waiting : ℕ
    pub running : ℕ

  abbrev pub fresh : Bulkhead
  fresh = record {
    in_flight = 0;
    semaphore = create limits.max_concurrency;
    waiting = 0;
    running = 0;
  }

  -- The synchronous start of `execute`: the call is shed (`false`), or counted and goes to the
  -- semaphore.
  unfoldable pub arrive : Bulkhead → Bool × Bulkhead
  arrive b =
      if leb (capacity limits) b.in_flight
      then (false, b)
      else (true, record b { in_flight = b.in_flight + 1; waiting = b.waiting + 1 })

  -- `async with self._semaphore`, when a waiting call gets its turn; `none` while it has to wait
  unfoldable pub enter : Bulkhead → Option Bulkhead
  enter b = elim (acquire b.semaphore) [
    | none ↦ none
    | some s ↦ some (record b { semaphore = s; waiting = b.waiting - 1; running = b.running + 1 })
  ]

  -- a running call ends, by a return or a raise
  unfoldable pub leave : Bulkhead → Bulkhead
  leave b = record b {
    in_flight = b.in_flight - 1;
    semaphore = release b.semaphore;
    running = b.running - 1;
  }

  -- a call is cancelled while it waits
  unfoldable pub abandon : Bulkhead → Bulkhead
  abandon b = record b { in_flight = b.in_flight - 1; waiting = b.waiting - 1 }
