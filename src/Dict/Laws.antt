-- ===== src/Dict/Laws.antt =====
-- The laws of reading a dict after a write, and what a write does to its values.
use mathlib.Core.Path.{subst}
use benzene_python.Prelude.{
  sym, All, ◌≡◌, refl, none, some, [], ◌∷◌, ◌++◌, arith, if◌then◌else◌, Key, ◌==◌, same_refl, ◌⊎◌,
  inl, inr, Bool-cases,
}
use benzene_python.Dict.{Dict, get, put, remove}

module _ {ℓ κ} {K : Type ℓ} {V : Type κ} ⦃e : Key K⦄ where
  pub get-put :
      (k j : K) (v : V) (d : Dict K V) → get j (put k v d) ≡ (if k == j then some v else get j d)
  unfolding get put
  get-put k j v [] = refl
  get-put k j v ((i, w) ∷ d) =
      ground (arith, get-put k j v d, e.same_iff i k, e.same_iff i j, e.same_iff k j)

  pub get-remove :
      (k j : K) (d : Dict K V) → get j (remove k d) ≡ (if k == j then none else get j d)
  unfolding get remove
  get-remove k j [] = ground arith
  get-remove k j ((i, w) ∷ d) =
      ground (arith, get-remove k j d, e.same_iff i k, e.same_iff i j, e.same_iff k j)

  pub get-put_self : (k : K) (v : V) (d : Dict K V) → get k (put k v d) ≡ some v
  get-put_self k v d = ground (arith, get-put k k v d, same_refl k)

  -- A write of a key that is not there goes to the end.
  pub put-fresh : (k : K) (v : V) (d : Dict K V) → get k d ≡ none → put k v d ≡ d ++ (k, v) ∷ []
  unfolding get put
  put-fresh k v [] h = refl
  put-fresh k v ((j, w) ∷ d) h = ground (arith, put-fresh k v d)

  -- What is found after a write is the value written, under its key, or what was there.
  pub get-put_cases :
      (k j : K) (v w : V) (d : Dict K V)
      → get j (put k v d) ≡ some w
      → ((k ≡ j) × (w ≡ v)) ⊎ (get j d ≡ some w)
  get-put_cases k j v w d found = elim (Bool-cases (k == j)) [
    | inl same ↦ inl ((e.same_iff k j).0 same, ground (arith, get-put k j v d))
    | inr other ↦ inr (ground (arith, get-put k j v d))
  ]

module _ {ℓ κ μ} {K : Type ℓ} {V : Type κ} ⦃e : Key K⦄ (P : K × V → Type μ) where
  -- A property of every entry survives a write.
  pub put-All : (k : K) (v : V) (d : Dict K V) → P (k, v) → All P d → All P (put k v d)
  unfolding put
  put-All k v [] p all = (p, tt)
  put-All k v ((j, w) ∷ d) p all = elim (Bool-cases (j == k)) [
    | inl same ↦ rw same (subst (λ i. P (i, v)) (sym ((e.same_iff j k).0 same)) p, all.1)
    | inr other ↦ rw other (all.0, put-All k v d p all.1)
  ]
