-- ===== src/Core/Casting/Search.antt =====
-- Chains of registered casts, and the measures of the search: the casts that end at a type not
-- seen, and the lengths of the chains along the queue.
use mathlib.Core.Path.{subst}
use benzene_python.Prelude.{
  ℕ, suc, ◌+◌, ◌≤◌, ◌≡◌, refl, sym, ap, inl, inr, false, List, [], ◌∷◌, ◌++◌, arith, contains,
  length, Key, ◌==◌, Bool-cases, Has,
}
use benzene_python.Dict.Unseen.{unseen, unseen-more, unseen-fewer}
use benzene_python.Dict.{get}
use benzene_python.Core.Casting.{Edges, Chain, steps_from}

module _ {T V : Type 0} ⦃e : Key T⦄ (edges : Edges T V) where
  -- A chain whose casts are registered, each from the type that the one before it ends at.
  abbrev pub Linked : T → Chain T V → T → Type 0
  Linked t [] to = t ≡ to
  Linked t ((n, c) ∷ chain) to = Has (n, c) (steps_from t edges) × Linked n chain to

  pub Linked-append :
      (t n m : T) (c : V → V) (chain : Chain T V)
      → Linked t chain n
      → Has (m, c) (steps_from n edges)
      → Linked t (chain ++ (m, c) ∷ []) m
  Linked-append t n m c [] here step =
      (subst (λ u. Has (m, c) (steps_from u edges)) (sym here) step, refl)
  Linked-append t n m c ((k, d) ∷ chain) (first, rest) step =
      (first, Linked-append k n m c chain rest step)

  -- The casts that end at a type not seen.
  abbrev pub unseen_of : List T → Edges T V → ℕ
  unseen_of seen [] = 0
  unseen_of seen ((t, steps) ∷ rest) = unseen seen steps + unseen_of seen rest

  unseen_of-more :
      (seen : List T) (n : T) (all : Edges T V)
      → unseen_of (seen ++ n ∷ []) all ≤ unseen_of seen all
  unseen_of-more seen n [] = omega arith
  unseen_of-more seen n ((t, steps) ∷ all) =
      omega (arith, unseen_of-more seen n all, unseen-more seen n steps)

  pub unseen_of-fewer :
      (seen : List T) (n t : T) (c : V → V) (all : Edges T V)
      → Has (n, c) (steps_from t all)
      → contains n seen ≡ false
      → suc (unseen_of (seen ++ n ∷ []) all) ≤ unseen_of seen all
  unfolding get
  unseen_of-fewer seen n t c [] h fresh = absurd h
  unseen_of-fewer seen n t c ((u, steps) ∷ all) h fresh = elim (Bool-cases (u == t)) [
    | inl same ↦
        let found : steps_from t ((u, steps) ∷ all) ≡ steps = ground arith in
        omega (
          arith,
          unseen-fewer seen n c steps (subst (Has (n, c)) found h) fresh,
          unseen_of-more seen n all,
        )
    | inr other ↦
        let later : steps_from t ((u, steps) ∷ all) ≡ steps_from t all = ground arith in
        omega (
          arith,
          unseen_of-fewer seen n t c all (subst (Has (n, c)) later h) fresh,
          unseen-more seen n steps,
        )
  ]

  -- Lengths of chains along the queue: rising, from `low` to `high`.
  abbrev pub Levels : ℕ → ℕ → List (T × Chain T V) → Type 0
  Levels low high [] = low ≤ high
  Levels low high ((t, k) ∷ queue) = (low ≤ length k) × Levels (length k) high queue

  pub Levels-le : (low high : ℕ) (queue : List (T × Chain T V)) → Levels low high queue → low ≤ high
  Levels-le low high [] h = h
  Levels-le low high ((t, k) ∷ queue) h = omega (arith, Levels-le (length k) high queue h.1)

  pub Levels-relax :
      (low high more : ℕ) (queue : List (T × Chain T V))
      → high ≤ more
      → Levels low high queue
      → Levels low more queue
  Levels-relax low high more [] le h = omega arith
  Levels-relax low high more ((t, k) ∷ queue) le h =
      (h.0, Levels-relax (length k) high more queue le h.1)

  pub Levels-push :
      (low high : ℕ) (t : T) (k : Chain T V) (queue : List (T × Chain T V))
      → length k ≡ high
      → Levels low high queue
      → Levels low high (queue ++ (t, k) ∷ [])
  Levels-push low high t k [] same h = (omega arith, omega arith)
  Levels-push low high t k ((u, j) ∷ queue) same h =
      (h.0, Levels-push (length j) high t k queue same h.1)

  -- each entry's chain is no shorter than `low`, and no longer than `high`
  pub Levels-Has :
      (low high : ℕ) (t : T) (k : Chain T V) (queue : List (T × Chain T V))
      → Levels low high queue
      → Has (t, k) queue
      → (low ≤ length k) × (length k ≤ high)
  Levels-Has low high t k [] h m = absurd m
  Levels-Has low high t k ((u, j) ∷ queue) h (inl same) =
      let j_k = ap (λ (p : T × Chain T V). length p.1) same in
      omega (arith, h.0, Levels-le (length j) high queue h.1, j_k)
  Levels-Has low high t k ((u, j) ∷ queue) h (inr m) =
      let (a, b) = Levels-Has (length j) high t k queue h.1 m in (omega (arith, h.0, a), b)
