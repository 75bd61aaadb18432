-- ===== src/Prelude/Equality.antt =====
-- Python's `==` on the values that the program uses as keys, as an interface with its instances.
use Prim.Native.Nat.{ℕ}
use Prim.Native.String.{String}
use mathlib.Core.Path.{◌≡◌, refl}
use mathlib.Core.Logic.{◌↔◌}
use mathlib.Core.Bool.{Bool, true, false, ◌&&◌, ◌||◌}
use mathlib.Core.Option.{Option, none, some}
use mathlib.Core.List.{List, [], ◌∷◌, ◌++◌}
use native.Mathlib.Omega.{arith}
use text.Mathlib.Text.{◌==◌ as str_eqb}
use text.Mathlib.TextEquality.{eq_iff}
use benzene_python.Prelude.Tests.{nat_eqb, nat_eqb_iff, if◌then◌else◌}

pub record Key {ℓ} (A : Type ℓ) : Type ℓ where
  pub same : A → A → Bool
  pub same_iff : (a b : A) → (same a b ≡ true) ↔ (a ≡ b)

infix 50 ◌==◌
abbrev pub ◌==◌ {ℓ} : {A : Type ℓ} ⦃e : Key A⦄ → A → A → Bool
◌==◌ ⦃e⦄ = e.same

module _ {ℓ κ} {A : Type ℓ} {B : Type κ} ⦃d : Key A⦄ ⦃e : Key B⦄ where
  abbrev pub pair_eqb : A × B → A × B → Bool
  pair_eqb p q = p.0 == q.0 && p.1 == q.1

  pub pair_eqb_iff : (p q : A × B) → (pair_eqb p q ≡ true) ↔ (p ≡ q)
  pair_eqb_iff p q = ground (arith, d.same_iff p.0 q.0, e.same_iff p.1 q.1)

  instance abbrev pub pair_key : Key (A × B)
  pair_key = record { same = pair_eqb; same_iff = pair_eqb_iff }

module _ {ℓ} {A : Type ℓ} ⦃e : Key A⦄ where
  abbrev pub option_eqb : Option A → Option A → Bool
  option_eqb none none = true
  option_eqb none (some b) = false
  option_eqb (some a) none = false
  option_eqb (some a) (some b) = a == b

  pub option_eqb_iff : (o p : Option A) → (option_eqb o p ≡ true) ↔ (o ≡ p)
  option_eqb_iff none none = ground arith
  option_eqb_iff none (some b) = ground arith
  option_eqb_iff (some a) none = ground arith
  option_eqb_iff (some a) (some b) = ground (arith, e.same_iff a b)

  instance abbrev pub option_key : Key (Option A)
  option_key = record { same = option_eqb; same_iff = option_eqb_iff }

  pub same_refl : (a : A) → (a == a) ≡ true
  same_refl a = (e.same_iff a a).1 refl

  -- `a in xs`
  abbrev pub contains : A → List A → Bool
  contains a [] = false
  contains a (x ∷ xs) = if x == a then true else contains a xs

  pub contains-append :
      (a : A) (xs ys : List A) → contains a (xs ++ ys) ≡ (contains a xs || contains a ys)
  contains-append a [] ys = refl
  contains-append a (x ∷ xs) ys = ground (arith, contains-append a xs ys)

-- The keys that the program's dicts use, beside pairs and options of them.
instance abbrev pub text_key : Key String
text_key = record { same = str_eqb; same_iff = eq_iff }

instance abbrev pub number_key : Key ℕ
number_key = record { same = nat_eqb; same_iff = nat_eqb_iff }
