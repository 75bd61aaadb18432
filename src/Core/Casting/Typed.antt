-- ===== src/Core/Casting/Typed.antt =====
-- What a cast returns.
use benzene_python.Prelude.{
  ◌≡◌, refl, sym, ap, ◌∙◌, ◌⊎◌, inl, inr, Bool, true, Option, none, some, [], ◌∷◌, arith, Key,
  Bool-cases, Has,
}
use benzene_python.Core.Casting.{Edges, Chain, steps_from, path, apply_chain, cast_along, cast}
use benzene_python.Core.Casting.Search.{Linked}
use benzene_python.Core.Casting.Chains.{Best, path-Best}

module _ {T V : Type 0} ⦃e : Key T⦄ (type_of : V → T) (is_instance : V → T → Bool)
    (edges : Edges T V)
    (typed : (t n : T) (c : V → V) (v : V)
      → Has (n, c) (steps_from t edges)
      → type_of v ≡ t
      → type_of (c v) ≡ n) where
  apply_chain-type :
      (t to : T) (chain : Chain T V) (v : V)
      → Linked edges t chain to
      → type_of v ≡ t
      → type_of (apply_chain chain v) ≡ to
  unfolding apply_chain
  apply_chain-type t to [] v linked here = here ∙ linked
  apply_chain-type t to ((n, c) ∷ chain) v linked here =
      apply_chain-type n to chain (c v) linked.1 (typed t n c v linked.0 here)

  cast_along-type :
      (to : T) (o : Option (Chain T V)) (v v' : V)
      → Best edges (type_of v) to o
      → cast_along type_of is_instance o v ≡ some v'
      → type_of v' ≡ to
  unfolding cast_along
  cast_along-type to none v v' best found = absurd (cc)
  cast_along-type to (some chain) v v' best found =
      let same : apply_chain chain v ≡ v' = ground arith in
      ap type_of (sym same) ∙ apply_chain-type (type_of v) to chain v best.0 refl

  -- If every registered step turns a value of its source type into one of its target type, then
  -- what a cast returns is an instance of the type asked for that is returned untouched, or has
  -- exactly that type.
  pub cast-type :
      (v v' : V) (to : T)
      → cast type_of is_instance edges v to ≡ some v'
      → ((is_instance v to ≡ true) × (v' ≡ v)) ⊎ (type_of v' ≡ to)
  unfolding cast
  cast-type v v' to found = elim (Bool-cases (is_instance v to)) [
    | inl already ↦ inl (already, ground arith)
    | inr other ↦ inr (
        cast_along-type to (path edges (type_of v) to) v v' (path-Best edges (type_of v) to)
          (ground arith))
  ]
