-- ===== src/Effect.antt =====
-- Coroutines that change a state and may raise. What was written before a raise stays written.
pub mod Keeps
use benzene_python.Prelude.{String}

-- What Python code raises: an `Exception`, by its class and its text, or the `CancelledError` of a
-- cancelled task, which is a `BaseException` and passes every `except Exception`.
pub data Fault : Type 0 where
  error : String → String → Fault
  cancelled : Fault

pub data Outcome {ℓ} (A : Type ℓ) : Type ℓ where
  returned : A → Outcome A
  raised : Fault → Outcome A

-- A coroutine of a world: what it comes to, and the world that it leaves.
abbrev pub Coroutine {ℓ} : (W A : Type ℓ) → Type ℓ
Coroutine W A = W → Outcome A × W

abbrev pub pure {ℓ} : {W A : Type ℓ} → A → Coroutine W A
pure a w = (returned a, w)

-- `await`: a raise ends the coroutine that waits
infixl 10 ◌>>=◌ ◌>>◌
abbrev pub after {ℓ} : {W A B : Type ℓ} → Outcome A × W → (A → Coroutine W B) → Outcome B × W
after (raised x, w) rest = (raised x, w)
after (returned a, w) rest = rest a w

abbrev pub ◌>>=◌ {ℓ} : {W A B : Type ℓ} → Coroutine W A → (A → Coroutine W B) → Coroutine W B
◌>>=◌ m rest w = after (m w) rest

abbrev pub ◌>>◌ {ℓ} : {W A B : Type ℓ} → Coroutine W A → Coroutine W B → Coroutine W B
m >> rest = m >>= λ _. rest

-- reads the world
abbrev pub look {ℓ} : {W A : Type ℓ} → (W → A) → Coroutine W A
look f w = (returned (f w), w)

abbrev pub change {ℓ} : {W : Type ℓ} → (W → W) → Coroutine W (Unit {ℓ})
change f w = (returned tt, f w)

-- a computation of a value only
abbrev pub lift {ℓ} : {W A : Type ℓ} → Outcome A → Coroutine W A
lift o w = (o, w)
