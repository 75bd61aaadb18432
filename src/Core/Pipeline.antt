-- ===== src/Core/Pipeline.antt =====
-- packages/benzene-core/benzene/core/pipeline.py. A middleware is a function of the rest of the
-- pipeline, over the context and whatever else the middleware change.
pub mod Order
use benzene_python.Prelude.{
  ℕ, zero, suc, ◌-◌, List, [], ◌∷◌, ◌++◌, Option, none, some, length, drop,
}
use benzene_python.Effect.{Coroutine, pure}

abbrev pub Next {ℓ} : Type ℓ → Type ℓ
Next S = Coroutine S Unit

abbrev pub Middleware {ℓ} : Type ℓ → Type ℓ
Middleware S = Next S → Next S

module _ {ℓ} {S : Type ℓ} where
  -- `use`
  unfoldable pub register : List (Middleware S) → Middleware S → List (Middleware S)
  register middleware m = middleware ++ m ∷ []

  -- `self._middleware[index]`, if `index` is below the length
  abbrev pub get_elem? : List (Middleware S) → ℕ → Option (Middleware S)
  get_elem? [] i = none
  get_elem? (m ∷ ms) zero = some m
  get_elem? (m ∷ ms) (suc i) = get_elem? ms i

  -- `_invoke`, by the calls that are left before the index passes the end
  unfoldable pub invoke : ℕ → List (Middleware S) → ℕ → Next S
  invoke zero middleware index = pure tt
  invoke (suc left) middleware index = elim (get_elem? middleware index) [
    | none ↦ pure tt
    | some m ↦ m (invoke left middleware (suc index))
  ]

  -- `handle`
  unfoldable pub handle : List (Middleware S) → Next S
  handle middleware = invoke (length middleware) middleware 0
