-- ===== src/Dict.antt =====
-- Python's `dict`: an association list in insertion order. Writing a present key keeps its place.
pub mod Laws
pub mod Members
pub mod Unique
pub mod Unseen
use benzene_python.Prelude.{
  Bool, Option, none, some, List, [], ◌∷◌, map, if◌then◌else◌, is_some, Key, ◌==◌,
}

abbrev pub Dict {ℓ κ} : Type ℓ → Type κ → Type (ℓ ⊔ κ)
Dict K V = List (K × V)

module _ {ℓ κ} {K : Type ℓ} {V : Type κ} ⦃e : Key K⦄ where
  -- d.get(k)
  unfoldable pub get : K → Dict K V → Option V
  get k [] = none
  get k ((j, v) ∷ d) = if j == k then some v else get k d

  -- d[k] = v
  unfoldable pub put : K → V → Dict K V → Dict K V
  put k v [] = (k, v) ∷ []
  put k v ((j, w) ∷ d) = if j == k then (j, v) ∷ d else (j, w) ∷ put k v d

  -- d.pop(k, None), and `del d[k]` of a present key; a dict has a key once
  unfoldable pub remove : K → Dict K V → Dict K V
  remove k [] = []
  remove k ((j, v) ∷ d) = if j == k then remove k d else (j, v) ∷ remove k d

  -- k in d
  abbrev pub has_key : K → Dict K V → Bool
  has_key k d = is_some (get k d)

-- d.values(), d.keys()
module _ {ℓ κ} {K : Type ℓ} {V : Type κ} where
  abbrev pub values : Dict K V → List V
  values = map (λ (p : K × V). p.1)

  abbrev pub keys : Dict K V → List K
  keys = map (λ (p : K × V). p.0)

-- a dict from its items, in their order
module _ {ℓ κ} {K : Type ℓ} {V : Type κ} ⦃e : Key K⦄ where
  unfoldable pub from_pairs : List (K × V) → Dict K V → Dict K V
  from_pairs [] d = d
  from_pairs ((k, v) ∷ ps) d = from_pairs ps (put k v d)
