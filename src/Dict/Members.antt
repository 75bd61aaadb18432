-- ===== src/Dict/Members.antt =====
-- Reasoning about every key of a table of constants: what is found in it is one of its entries.
use mathlib.Core.Path.{subst, subst₂}
use benzene_python.Prelude.{
  true, ◌≡◌, some, List, [], ◌∷◌, arith, inl, inr, Bool-cases, contains, All, Key, ◌==◌,
}
use benzene_python.Dict.{Dict, get}

module _ {ℓ κ μ} {K : Type ℓ} {V : Type κ} ⦃e : Key K⦄ (Q : K → V → Type μ) where
  -- A property of every entry holds of the entry found.
  pub get-All :
      (k : K) (d : Dict K V) {v : V} → All (λ (p : K × V). Q p.0 p.1) d → get k d ≡ some v → Q k v
  unfolding get
  get-All k [] h found = absurd (cc)
  get-All k ((j, w) ∷ d) {v} h found = elim (Bool-cases (j == k)) [
    | inl same ↦ let this : w ≡ v = ground arith in subst₂ Q ((e.same_iff j k).0 same) this h.0
    | inr other ↦ get-All k d h.1 (ground arith)
  ]

module _ {ℓ κ} {K : Type ℓ} ⦃e : Key K⦄ (P : K → Type κ) where
  -- A property of every element holds of an element that the test finds.
  pub contains-All : (k : K) (xs : List K) → All P xs → contains k xs ≡ true → P k
  contains-All k [] h found = absurd (cc)
  contains-All k (x ∷ xs) h found = elim (Bool-cases (x == k)) [
    | inl same ↦ subst P ((e.same_iff x k).0 same) h.0
    | inr other ↦ contains-All k xs h.1 (ground arith)
  ]
