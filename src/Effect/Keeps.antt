-- ===== src/Effect/Keeps.antt =====
-- Properties of a world that a coroutine keeps, however it ends.
use mathlib.Core.Path.{◌≡◌, refl}
use mathlib.Core.Logic.{◌⊎◌, inl, inr}
use native.Mathlib.Omega.{arith}
use benzene_python.Effect.{
  pure, Fault, lift, ◌>>◌, Coroutine, Outcome, returned, raised, after, ◌>>=◌,
}

module _ {W : Type 0} (P : W → Type 0) where
  abbrev pub Keeps : {A : Type 0} → Coroutine W A → Type 0
  Keeps m = (w : W) → P w → P (m w).1

  pub Keeps-after :
      {A B : Type 0} (o : Outcome A) (w : W) (rest : A → Coroutine W B)
      → P w
      → ((a : A) → Keeps (rest a))
      → P (after (o, w) rest).1
  Keeps-after (raised x) w rest p h = p
  Keeps-after (returned a) w rest p h = h a w p

  pub Keeps-bind :
      {A B : Type 0} (m : Coroutine W A) (rest : A → Coroutine W B)
      → Keeps m
      → ((a : A) → Keeps (rest a))
      → Keeps (m >>= rest)
  Keeps-bind m rest k h w p = Keeps-after (m w).0 (m w).1 rest (k w p) h

  pub Keeps-seq :
      {A B : Type 0} (m : Coroutine W A) (rest : Coroutine W B)
      → Keeps m
      → Keeps rest
      → Keeps (m >> rest)
  Keeps-seq m rest k h = Keeps-bind m (λ _. rest) k (λ _. h)

  pub Keeps-lift : {A : Type 0} (o : Outcome A) → Keeps (lift o)
  Keeps-lift o w p = p

pub Outcome-cases :
    {A : Type 0} (o : Outcome A) → ((a : A) × (o ≡ returned a)) ⊎ ((x : Fault) × (o ≡ raised x))
Outcome-cases (returned a) = inl (a, refl)
Outcome-cases (raised x) = inr (x, refl)

pub after-pure :
    {W A B : Type 0} (o : Outcome A) (w : W) (b : B) → (after (o, w) (λ _. pure b)).1 ≡ w
after-pure (returned a) w b = refl
after-pure (raised x) w b = refl

pub raised≢returned : {A : Type 0} (x : Fault) (a : A) → ¬ (raised x ≡ returned a)
raised≢returned x a same = ground (arith, same)
