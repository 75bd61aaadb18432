-- ===== src/Core/Casting/Chains.antt =====
-- The search for a chain of casts ends, with a shortest chain if there is one.
use benzene_python.Prelude.{
  ℕ, zero, suc, ◌+◌, ◌≤◌, ◌≡◌, ◌≢◌, refl, sym, ap, ◌∙◌, inl, inr, true, Option, none, some, List,
  [], ◌∷◌, arith, contains, length, Key, ◌==◌, Bool-cases, Option-cases,
}
use benzene_python.Dict.Unseen.{unseen-le-length}
use benzene_python.Core.Casting.{Edges, Chain, steps_from, expand, search_path, count_casts, path}
use benzene_python.Core.Casting.Search.{Linked, unseen_of}
use benzene_python.Core.Casting.Turn.{expand-finds, expand-Turned}
use benzene_python.Core.Casting.Passage.{Ahead, Ahead-le, Inv, Inv-turn}

module _ {T V : Type 0} ⦃e : Key T⦄ (edges : Edges T V) (from to : T) where
  -- A shortest chain, or none where there is none.
  abbrev pub Best : Option (Chain T V) → Type 0
  Best none = (chain : Chain T V) → ¬ Linked edges from chain to
  Best (some best) =
      Linked edges from best to
      × ((chain : Chain T V) → Linked edges from chain to → length best ≤ length chain)

  search_empty : (left : ℕ) (seen : List T) → search_path left edges to [] seen ≡ none
  unfolding search_path
  search_empty zero seen = refl
  search_empty (suc left) seen = refl

  search_turn :
      (left : ℕ) (current : T) (taken : Chain T V) (queue : List (T × Chain T V)) (seen : List T)
      → let turn = expand to taken (steps_from current edges) queue seen in
        (turn.0 ≡ none)
        → search_path (suc left) edges to ((current, taken) ∷ queue) seen
          ≡ search_path left edges to turn.1.0 turn.1.1
  unfolding search_path
  search_turn left current taken queue seen h = ground arith

  search_find :
      (left : ℕ) (current : T) (taken : Chain T V) (queue : List (T × Chain T V)) (seen : List T)
      (chain : Chain T V)
      → (expand to taken (steps_from current edges) queue seen).0 ≡ some chain
      → search_path (suc left) edges to ((current, taken) ∷ queue) seen ≡ some chain
  unfolding search_path
  search_find left current taken queue seen chain h = ground arith

  Ahead-empty : (v : T) (k : ℕ) (rest : Chain T V) → ¬ Ahead edges from to [] v k rest
  Ahead-empty v k [] h = h
  Ahead-empty v k ((n, c) ∷ rest) (inl (taken, there, short)) = there
  Ahead-empty v k ((n, c) ∷ rest) (inr h) = Ahead-empty n (suc k) rest h

  -- Each turn takes one type off the queue, and puts none on it that does not become seen.
  search_path-Best :
      (left low high : ℕ) (queue : List (T × Chain T V)) (seen : List T)
      → Inv edges from to low high queue seen
      → unseen_of edges seen edges + length queue ≤ left
      → Best (search_path left edges to queue seen)
  search_path-Best left low high [] seen i enough =
      rw (search_empty left seen) (λ chain linked. Ahead-empty from 0 chain (i.ahead chain linked))
  search_path-Best zero low high ((current, taken) ∷ queue) seen i enough = absurd (omega arith)
  search_path-Best (suc left) low high ((current, taken) ∷ queue) seen i enough =
      let start = (i.reached current taken (inl refl)).0 in
      let steps = steps_from current edges in
      elim (Option-cases ((expand to taken steps queue seen).0)) [
        | inl missed ↦
            let turned =
              expand-Turned edges from to current taken start steps queue seen (λ n c h. h)
                missed in
            rw (search_turn left current taken queue seen missed) (
              search_path-Best left (length taken) (suc (length taken)) _ _
                (Inv-turn edges from to low high current taken queue _ seen _ i turned)
                (omega (arith, turned.measured, enough)))
        | inr (chain, found) ↦
            let (linked, longer) =
              expand-finds edges from to current taken start steps queue seen chain (λ n c h. h)
                found in
            rw (search_find left current taken queue seen chain found) (
              linked,
              λ other h. omega (
                arith,
                longer,
                Ahead-le edges from to (length taken) high ((current, taken) ∷ queue) from 0 other
                    (omega arith, i.levels.1) (i.ahead other h),
              ),
            )
      ]

  unseen_of-le-count_casts :
      (seen : List T) (all : Edges T V) → unseen_of edges seen all ≤ count_casts all
  unfolding count_casts
  unseen_of-le-count_casts seen [] = omega arith
  unseen_of-le-count_casts seen ((t, steps) ∷ all) =
      omega (arith, unseen_of-le-count_casts seen all, unseen-le-length seen steps)

  module _ (apart : from ≢ to) where
    only_from : (t : T) → contains t (from ∷ []) ≡ true → from ≡ t
    only_from t there = (e.same_iff from t).0 (ground arith)

    Inv-init : Inv edges from to 0 0 ((from, []) ∷ []) (from ∷ [])
    Inv-init = record {
      reached = λ t k. elim [
        | inl same ↦
            let t_from = ap (λ (p : T × Chain T V). p.0) same in
            let k_nil = ap (λ (p : T × Chain T V). p.1) same in
            (rw (k_nil, t_from) refl, λ hit. apart (sym t_from ∙ hit))
        | inr nowhere ↦ absurd nowhere
      ];
      closed = λ t there. inl ([], inl (ap (λ (u : T). (u, [])) (sym (only_from t there))));
      missed = λ t there hit. apart (only_from t there ∙ hit);
      levels = (omega arith, omega arith);
      narrow = omega arith;
      ahead = λ rest linked. begin_ahead rest linked;
    }
      where
        begin_ahead :
            (rest : Chain T V)
            → Linked edges from rest to
            → Ahead edges from to ((from, []) ∷ []) from 0 rest
        begin_ahead [] linked = absurd (apart linked)
        begin_ahead ((n, c) ∷ rest) linked = inl ([], inl refl, omega arith)

  -- The search ends with an answer, for which its fuel is enough: a chain of registered casts from
  -- the one type to the other, as short as any, and none only if no chain of any length connects
  -- them.
  pub path-Best : Best (path edges from to)
  unfolding path
  path-Best = elim (Bool-cases (from == to)) [
    | inl same ↦ rw same ((e.same_iff from to).0 same, λ chain linked. omega arith)
    | inr apart ↦
        let from_to : from ≢ to = λ same. ground (arith, (e.same_iff from to).1 same) in
        rw apart (
          search_path-Best (suc (suc (count_casts edges))) 0 0 ((from, []) ∷ []) (from ∷ [])
            (Inv-init from_to) (omega (arith, unseen_of-le-count_casts (from ∷ []) edges)))
  ]
