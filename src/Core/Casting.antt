-- ===== src/Core/Casting.antt =====
-- packages/benzene-core/benzene/core/casting.py. Types are names of a type with an equality; the
-- type of a value and `isinstance` are Python's, and parameters. A cast does not fail. `none` is a
-- NoCastPathError.
pub mod Search
pub mod Turn
pub mod Passage
pub mod Chains
pub mod Typed
mod Tests
use benzene_python.Prelude.{
  String, ◌⊕◌, ℕ, zero, suc, ◌+◌, Bool, true, false, ◌&&◌, Option, none, some, List, [], ◌∷◌, ◌++◌,
  if◌then◌else◌, is_some, contains, length, Key, ◌==◌,
}
use benzene_python.Effect.{Fault, error, cancelled, Outcome, returned, raised, Coroutine}
use benzene_python.Dict.{Dict, get, put}
use benzene_python.Results.Result
use benzene_python.Results.Result.{Result, is_successful}

-- `_edges`: the casts by the type they start at, then by the type they end at
abbrev pub Edges {ℓ} : (T V : Type ℓ) → Type ℓ
Edges T V = Dict T (Dict T (V → V))

-- a chain of casts, each with the type that it ends at
abbrev pub Chain {ℓ} : (T V : Type ℓ) → Type ℓ
Chain T V = List (T × (V → V))

module _ {ℓ} {T V : Type ℓ} ⦃e : Key T⦄ where
  abbrev pub steps_from : T → Edges T V → Dict T (V → V)
  steps_from t edges = elim (get t edges) [ none ↦ [] | some steps ↦ steps ]

  unfoldable pub cast_between : T → T → (V → V) → Edges T V → Edges T V
  cast_between from to cast edges = put from (put to cast (steps_from from edges)) edges

  -- The loop over the casts of `current`, which has been reached by the chain `taken`: a chain to
  -- the target, or what the queue and the seen types have become.
  unfoldable pub expand :
      T
      → Chain T V
      → Dict T (V → V)
      → List (T × Chain T V)
      → List T
      → Option (Chain T V) × (List (T × Chain T V) × List T)
  expand to taken [] queue seen = (none, (queue, seen))
  expand to taken ((next, cast) ∷ steps) queue seen =
      let further =
        expand to taken steps
          (if contains next seen then queue else queue ++ (next, taken ++ (next, cast) ∷ []) ∷ [])
          (if contains next seen then seen else seen ++ next ∷ []) in
      if next == to then (some (taken ++ (next, cast) ∷ []), (queue, seen)) else further

  -- `while queue`, by the turns that are left
  unfoldable pub search_path :
      ℕ → Edges T V → T → List (T × Chain T V) → List T → Option (Chain T V)
  search_path zero edges to queue seen = none
  search_path (suc left) edges to [] seen = none
  search_path (suc left) edges to ((current, taken) ∷ queue) seen =
      let (found, (queue', seen')) = expand to taken (steps_from current edges) queue seen in
      let rest = search_path left edges to queue' seen' in
      elim found [ some chain ↦ some chain | none ↦ rest ]

  -- The types that a search can meet: the start, and the end of each cast.
  unfoldable pub count_casts : Edges T V → ℕ
  count_casts [] = 0
  count_casts ((t, steps) ∷ edges) = count_casts edges + length steps

  -- `_path`: each turn takes a type off the queue, and a type is put on it once
  unfoldable pub path : Edges T V → T → T → Option (Chain T V)
  path edges from to =
      if from == to
      then some []
      else search_path (suc (suc (count_casts edges))) edges to ((from, []) ∷ []) (from ∷ [])

-- `for step in chain: value = step(value)`
unfoldable pub apply_chain {ℓ} : {T V : Type ℓ} → Chain T V → V → V
apply_chain [] v = v
apply_chain ((t, step) ∷ chain) v = apply_chain chain (step v)

module _ {ℓ} {T V : Type ℓ} ⦃e : Key T⦄ (type_of : V → T) (is_instance : V → T → Bool) where
  unfoldable pub cast_along : Option (Chain T V) → V → Option V
  cast_along none v = none
  cast_along (some chain) v = some (apply_chain chain v)

  unfoldable pub cast : Edges T V → V → T → Option V
  cast edges v to = if is_instance v to then some v else cast_along (path edges (type_of v) to) v

module _ {ℓ} {T V : Type ℓ} ⦃e : Key T⦄ (type_of : V → T) (is_instance : V → T → Bool)
    (name : T → String) (edges : Edges T V) where
  -- the exception of a cast that has no chain
  abbrev pub no_path : V → T → Fault
  no_path v to = error "NoCastPathError" (
      "No cast path from "
      ⊕ name (type_of v)
      ⊕ " to "
      ⊕ name to
      ⊕ ". Register the missing step with casters.cast_between(...) — steps compose, so you usually only "
      ⊕ "need a cast from the immediately preceding version.")

  unfoldable pub replace_payload : Result V → V → T → Outcome (Result V)
  replace_payload r v to = elim (cast type_of is_instance edges v to) [
    | none ↦ raised (no_path v to)
    | some v' ↦ returned (record r { payload = some v' })
  ]

  -- the result of the target on its way out
  unfoldable pub downcast : Option T → Result V → Outcome (Result V)
  downcast none r = returned r
  downcast (some to) r = elim r.payload [
    | none ↦ returned r
    | some v ↦ if is_successful r then replace_payload r v to else returned r
  ]

module _ {ℓ} {T V W : Type ℓ} ⦃e : Key T⦄ (type_of : V → T) (is_instance : V → T → Bool)
    (name : T → String) (edges : Edges T V) where
  unfoldable pub answer_as : Option T → Outcome (Result V) × W → Outcome (Result V) × W
  answer_as response_to (raised x, w) = (raised x, w)
  answer_as response_to (returned r, w) = (downcast type_of is_instance name edges response_to r, w)

  unfoldable pub casting_handler :
      (V → Coroutine W (Result V)) → T → Option T → V → Coroutine W (Result V)
  casting_handler target to response_to request w =
      elim (cast type_of is_instance edges request to) [
        | none ↦ (raised (no_path type_of is_instance name edges request to), w)
        | some r ↦ answer_as response_to (target r w)
      ]
