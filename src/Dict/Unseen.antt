-- ===== src/Dict/Unseen.antt =====
-- The keys of a dict that a list does not hold: a measure for a walk that meets each key once.
use benzene_python.Prelude.{
  ℕ, suc, ◌+◌, ◌≤◌, ◌≡◌, ap, inl, inr, false, List, [], ◌∷◌, ◌++◌, arith, if◌then◌else◌, contains,
  contains-append, length, Key, Has, same_refl,
}
use benzene_python.Dict.{Dict}

module _ {K V : Type 0} ⦃e : Key K⦄ where
  abbrev pub unseen : List K → Dict K V → ℕ
  unseen seen [] = 0
  unseen seen ((n, c) ∷ d) = (if contains n seen then 0 else 1) + unseen seen d

  -- Seeing one more key leaves no more unseen.
  pub unseen-more :
      (seen : List K) (n : K) (d : Dict K V) → unseen (seen ++ n ∷ []) d ≤ unseen seen d
  unseen-more seen n [] = omega arith
  unseen-more seen n ((m, c) ∷ d) =
      ground (arith, unseen-more seen n d, contains-append m seen (n ∷ []))

  -- Seeing a key that stands in the dict leaves one fewer at least.
  pub unseen-fewer :
      (seen : List K) (n : K) (c : V) (d : Dict K V)
      → Has (n, c) d
      → contains n seen ≡ false
      → suc (unseen (seen ++ n ∷ []) d) ≤ unseen seen d
  unseen-fewer seen n c [] h fresh = absurd h
  unseen-fewer seen n c ((m, d) ∷ rest) (inl same) fresh = ground (
    arith,
    unseen-more seen n rest,
    contains-append m seen (n ∷ []),
    same_refl n,
    ap (λ (p : K × V). p.0) same,
  )
  unseen-fewer seen n c ((m, d) ∷ rest) (inr h) fresh =
      ground (arith, unseen-fewer seen n c rest h fresh, contains-append m seen (n ∷ []))

  pub unseen-le-length : (seen : List K) (d : Dict K V) → unseen seen d ≤ length d
  unseen-le-length seen [] = omega arith
  unseen-le-length seen ((n, c) ∷ d) = ground (arith, unseen-le-length seen d)
