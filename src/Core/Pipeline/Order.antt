-- ===== src/Core/Pipeline/Order.antt =====
-- The pipeline runs its middleware once each, the first registered outermost.
use benzene_python.Prelude.{
  ℕ, zero, suc, ◌≡◌, refl, List, [], ◌∷◌, ◌++◌, none, some, length, ap, sym, ◌∙◌,
}
use benzene_python.Effect.{pure}
use benzene_python.Core.Pipeline.{Next, Middleware, register, get_elem?, invoke, handle}

module _ {ℓ} {S : Type ℓ} where
  -- The middleware around one another, the first outermost, and what the last calls.
  abbrev pub around : List (Middleware S) → Next S → Next S
  around [] inner = inner
  around (m ∷ ms) inner = m (around ms inner)

  around-append :
      (ms ns : List (Middleware S)) (inner : Next S)
      → around (ms ++ ns) inner ≡ around ms (around ns inner)
  around-append [] ns inner = refl
  around-append (m ∷ ms) ns inner = ap m (around-append ms ns inner)

  -- from one element further on
  invoke-cons :
      (left : ℕ) (m : Middleware S) (ms : List (Middleware S)) (i : ℕ)
      → invoke left (m ∷ ms) (suc i) ≡ invoke left ms i
  unfolding invoke
  invoke-cons zero m ms i = refl
  invoke-cons (suc left) m ms i =
      ap (λ (k : Next S). elim (get_elem? ms i) [ none ↦ pure tt | some n ↦ n k ])
        (invoke-cons left m ms (suc i))

  invoke-around : (ms : List (Middleware S)) → invoke (length ms) ms 0 ≡ around ms (pure tt)
  unfolding invoke
  invoke-around [] = refl
  invoke-around (m ∷ ms) = ap m (invoke-cons (length ms) m ms 0 ∙ invoke-around ms)

  -- The index loop is the nest of its middleware: the first registered is outermost, each is given
  -- the rest of the pipeline as its `next`, and the last a `next` that does nothing; a middleware
  -- registered later goes inside all the earlier ones.
  pub handle-around :
      (ms : List (Middleware S)) (m : Middleware S)
      → (handle ms ≡ around ms (pure tt)) × (handle (register ms m) ≡ around ms (m (pure tt)))
  unfolding handle register
  handle-around ms m =
      (invoke-around ms, invoke-around (ms ++ m ∷ []) ∙ around-append ms (m ∷ []) (pure tt))

  -- What stands behind a middleware that never calls `next` is not run: the pipeline does the same,
  -- from every state, as with all of it left out.
  pub handle_short_circuit :
      (pre post : List (Middleware S)) (m : Middleware S)
      → ((n n' : Next S) → m n ≡ m n')
      → handle (pre ++ m ∷ post) ≡ handle (pre ++ m ∷ [])
  unfolding handle
  handle_short_circuit pre post m stops =
      invoke-around (pre ++ m ∷ post)
      ∙ around-append pre (m ∷ post) (pure tt)
      ∙ ap (around pre) (stops (around post (pure tt)) (pure tt))
      ∙ sym (around-append pre (m ∷ []) (pure tt))
      ∙ sym (invoke-around (pre ++ m ∷ []))
