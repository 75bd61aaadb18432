-- ===== src/Prelude/Sorting.antt =====
-- Python's `sorted` with a key, which is stable, and its laws.
use Prim.Native.String.{String, compare}
use Prim.Native.Nat.{suc, Ordering}
use mathlib.Core.Path.{◌≡◌, refl}
use mathlib.Core.Logic.{◌⊎◌, inl, inr, ◌↔◌}
use mathlib.Core.Bool.{Bool, true, false}
use mathlib.Core.List.{List, [], ◌∷◌}
use native.Mathlib.Omega.{arith}
use benzene_python.Prelude.Tests.{if◌then◌else◌, Bool-cases}
use benzene_python.Prelude.Lists.{length, All, Has}

-- `s <= t` of two texts: by the numbers of their characters
abbrev pub text_leb : String → String → Bool
text_leb s t = elim (compare s t) [ Ordering.gt ↦ false | _ ↦ true ]

module _ {ℓ} {A : Type ℓ} (before : A → A → Bool) where
  -- before the first element that does not come before it
  unfoldable pub insert_by : A → List A → List A
  insert_by x [] = x ∷ []
  insert_by x (y ∷ ys) = if before x y then x ∷ y ∷ ys else y ∷ insert_by x ys

  unfoldable pub sorted_by : List A → List A
  sorted_by [] = []
  sorted_by (x ∷ xs) = insert_by x (sorted_by xs)

  length-insert_by : (x : A) (xs : List A) → length (insert_by x xs) ≡ suc (length xs)
  unfolding insert_by
  length-insert_by x [] = refl
  length-insert_by x (y ∷ ys) = ground (arith, length-insert_by x ys)

  pub length-sorted_by : (xs : List A) → length (sorted_by xs) ≡ length xs
  unfolding sorted_by
  length-sorted_by [] = refl
  length-sorted_by (x ∷ xs) = omega (arith, length-insert_by x (sorted_by xs), length-sorted_by xs)

module _ {A : Type 0} (before : A → A → Bool) where
  Has-insert_by : (z x : A) (xs : List A) → Has z (insert_by before x xs) ↔ ((z ≡ x) ⊎ Has z xs)
  unfolding insert_by
  Has-insert_by z x [] = ground arith
  Has-insert_by z x (y ∷ ys) = ground (arith, Has-insert_by z x ys)

  pub Has-sorted_by : (z : A) (xs : List A) → Has z (sorted_by before xs) ↔ Has z xs
  unfolding sorted_by
  Has-sorted_by z [] = ground arith
  Has-sorted_by z (x ∷ xs) =
      ground (arith, Has-insert_by z x (sorted_by before xs), Has-sorted_by z xs)

module _ {ℓ κ} {A : Type ℓ} (R : A → A → Type κ) where
  -- Each element stands in the relation to all that follow.
  abbrev pub Ordered : List A → Type κ
  Ordered [] = Unit
  Ordered (x ∷ xs) = All (R x) xs × Ordered xs

  module _ (before : A → A → Bool) (before_R : (x y : A) → before x y ≡ true → R x y)
      (after_R : (x y : A) → before x y ≡ false → R y x)
      (trans : (x y z : A) → R x y → R y z → R x z) where
    All-trans : (x y : A) (xs : List A) → R x y → All (R y) xs → All (R x) xs
    All-trans x y [] r h = tt
    All-trans x y (z ∷ zs) r h = (trans x y z r h.0, All-trans x y zs r h.1)

    All-insert_by :
        (y x : A) (xs : List A) → R y x → All (R y) xs → All (R y) (insert_by before x xs)
    unfolding insert_by
    All-insert_by y x [] r h = (r, tt)
    All-insert_by y x (z ∷ zs) r h = elim (Bool-cases (before x z)) [
      | inl b ↦ rw b (r, h)
      | inr b ↦ rw b (h.0, All-insert_by y x zs r h.1)
    ]

    Ordered-insert_by : (x : A) (xs : List A) → Ordered xs → Ordered (insert_by before x xs)
    unfolding insert_by
    Ordered-insert_by x [] h = (tt, tt)
    Ordered-insert_by x (y ∷ ys) h = elim (Bool-cases (before x y)) [
      | inl b ↦ rw b ((before_R x y b, All-trans x y ys (before_R x y b) h.0), h)
      | inr b ↦ rw b (All-insert_by y x ys (after_R x y b) h.0, Ordered-insert_by x ys h.1)
    ]

    pub Ordered-sorted_by : (xs : List A) → Ordered (sorted_by before xs)
    unfolding sorted_by
    Ordered-sorted_by [] = tt
    Ordered-sorted_by (x ∷ xs) = Ordered-insert_by x (sorted_by before xs) (Ordered-sorted_by xs)
