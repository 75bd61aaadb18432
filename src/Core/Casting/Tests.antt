-- ===== src/Core/Casting/Tests.antt =====
-- Casts between versions of a person.
use benzene_python.Prelude.{
  Bool-cases, arith, suc, String, ◌==◌, ◌≡◌, refl, ◌⊎◌, inl, inr, Bool, true, none, some, [], ◌∷◌,
  text_key, ap, sym, ◌∙◌, Has, ℕ,
}
use benzene_python.Dict.{Dict, get, put}
use benzene_python.Effect.{returned}
use benzene_python.Results.Result.{is_successful, ok}
use benzene_python.Results
use benzene_python.Core.Casting.{
  Edges, steps_from, cast_between, expand, search_path, count_casts, path, apply_chain, cast_along,
  cast, replace_payload, downcast, answer_as, casting_handler,
}
use benzene_python.Core.Casting.Chains.{Best, path-Best}
use benzene_python.Core.Casting.Typed.{cast-type}

abbrev Value : Type 0
Value = String × ℕ

abbrev becomes : String → Value → Value
becomes t v = (t, suc (v.1))

abbrev type_of : Value → String
type_of v = v.0

abbrev is_instance : Value → String → Bool
is_instance v t = v.0 == t

-- from each version to the next, a detour, and a step back
abbrev versions : Edges String Value
versions =
    ("V1", ("Draft", becomes "Draft") ∷ ("V2", becomes "V2") ∷ [])
    ∷ ("Draft", ("V2", becomes "V2") ∷ [])
    ∷ ("V2", ("V3", becomes "V3") ∷ ("V1", becomes "V1") ∷ [])
    ∷ []

-- a step each
abbrev two : Edges String Value
two = ("V1", ("V2", becomes "V2") ∷ []) ∷ ("V2", ("V3", becomes "V3") ∷ []) ∷ []

casting_runs :
    (cast_between {T = String} {V = Value} "Draft" "V2" (becomes "V2") (("Draft", []) ∷ [])
      ≡ ("Draft", ("V2", becomes "V2") ∷ []) ∷ [])
    × (cast type_of is_instance versions ("V1", 0) "V3" ≡ some ("V3", 2))
    × (cast type_of is_instance versions ("V3", 0) "V1" ≡ none)
    × (cast type_of is_instance versions ("V3", 0) "V3" ≡ some ("V3", 0))
unfolding cast_between get put cast cast_along apply_chain path search_path expand count_casts
casting_runs = (refl, refl, refl, refl)

handler_runs :
    (casting_handler {W = ℕ} type_of is_instance
        (λ t. t)
        versions
        (λ v w. (returned (ok (some v)), suc w))
        "V2"
        (some "V1")
        ("V1", 0)
        5
      ≡ (returned (ok (some ("V1", 2))), 6))
unfolding casting_handler answer_as downcast replace_payload is_successful cast cast_along
    apply_chain path search_path expand count_casts get Results.Status.is_successful
handler_runs = refl

path-Best_example : Best versions "V1" "V3" (path versions "V1" "V3")
path-Best_example = path-Best versions "V1" "V3"

-- a step that starts at a type stands under one of the entries
steps_from-cons :
    (t u n : String) (c : Value → Value) (steps : Dict String (Value → Value))
    (all : Edges String Value)
    → Has (n, c) (steps_from t ((u, steps) ∷ all))
    → Has (n, c) steps ⊎ Has (n, c) (steps_from t all)
unfolding get
steps_from-cons t u n c steps all h = elim (Bool-cases (u == t)) [
  | inl same ↦
      let found : steps_from t ((u, steps) ∷ all) ≡ steps = ground arith in inl (rw (← found) h)
  | inr other ↦
      let later : steps_from t ((u, steps) ∷ all) ≡ steps_from t all = ground arith in
      inr (rw (← later) h)
]

becomes_typed :
    (n m : String) (c : Value → Value) (v : Value)
    → ◌≡◌ {A = String × (Value → Value)} (n, c) (m, becomes m)
    → type_of (c v) ≡ n
becomes_typed n m c v same =
    ap (λ (p : String × (Value → Value)). type_of (p.1 v)) same
    ∙ sym (ap (λ (p : String × (Value → Value)). p.0) same)

-- each step gives its target type
versions-typed :
    (t n : String) (c : Value → Value) (v : Value)
    → Has (n, c) (steps_from t two)
    → type_of v ≡ t
    → type_of (c v) ≡ n
unfolding get
versions-typed t n c v h here =
    elim (steps_from-cons t "V1" n c (("V2", becomes "V2") ∷ [])
      (("V2", ("V3", becomes "V3") ∷ []) ∷ []) h) [
        | inl (inl same) ↦ becomes_typed n "V2" c v same
        | inl (inr nowhere) ↦ absurd nowhere
        | inr later ↦ elim (steps_from-cons t "V2" n c (("V3", becomes "V3") ∷ []) [] later) [
          | inl (inl same) ↦ becomes_typed n "V3" c v same
          | inl (inr nowhere) ↦ absurd nowhere
          | inr nowhere ↦ absurd nowhere
        ]
      ]

two_runs : cast type_of is_instance two ("V1", 0) "V3" ≡ some ("V3", 2)
unfolding get put cast cast_along apply_chain path search_path expand count_casts
two_runs = refl

cast-type_example :
    ((is_instance ("V1", 0) "V3" ≡ true) × (◌≡◌ {A = Value} ("V3", 2) ("V1", 0)))
    ⊎ (type_of ("V3", 2) ≡ "V3")
cast-type_example =
    cast-type type_of is_instance two versions-typed ("V1", 0) ("V3", 2) "V3" two_runs
