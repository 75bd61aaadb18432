-- ===== src/Core/Casting/Turn.antt =====
-- One turn of the search: what the loop over the casts of a type does to the queue and the seen
-- types.
use mathlib.Core.Path.{subst}
use benzene_python.Prelude.{
  ℕ, suc, ◌+◌, ◌≤◌, ◌≡◌, ◌≢◌, refl, sym, ap, ◌∙◌, ◌⊎◌, inl, inr, true, false, none, some, List, [],
  ◌∷◌, ◌++◌, arith, contains, length, length-append, Key, ◌==◌, Bool-cases, Has, contains-append,
  Has-append, same_refl,
}
use benzene_python.Dict.{Dict}
use benzene_python.Core.Casting.{Edges, Chain, steps_from, expand}
use benzene_python.Core.Casting.Search.{
  Linked, Linked-append, unseen_of, unseen_of-fewer, Levels, Levels-push,
}

module _ {T V : Type 0} ⦃e : Key T⦄ (edges : Edges T V) (from to current : T)
    (taken : Chain T V) where
  -- The type stands in the queue.
  abbrev pub Queued : List (T × Chain T V) → T → Type 0
  Queued queue t = (k : Chain T V) × Has (t, k) queue

  -- What a turn without a find has done.
  pub record Turned (steps : Dict T (V → V)) (queue queue' : List (T × Chain T V))
      (seen seen' : List T) : Type 0 where
    pub grows : (t : T) → contains t seen ≡ true → contains t seen' ≡ true
    pub stepped : (n : T) (c : V → V) → Has (n, c) steps → (contains n seen' ≡ true) × (n ≢ to)
    pub origin : (t : T) → contains t seen' ≡ true → (contains t seen ≡ true) ⊎ Queued queue' t
    pub kept : (t : T) (k : Chain T V) → Has (t, k) queue → Has (t, k) queue'
    pub linked :
        (t : T) (k : Chain T V)
        → Has (t, k) queue'
        → Has (t, k) queue ⊎ (Linked edges from k t × (t ≢ to))
    pub levels :
        (low : ℕ)
        → Levels edges low (suc (length taken)) queue
        → Levels edges low (suc (length taken)) queue'
    pub measured :
        unseen_of edges seen' edges + length queue' ≤ unseen_of edges seen edges + length queue

  -- One cast of the loop: it ends at the target, at a seen type, or at a new one.
  expand-found :
      (n : T) (c : V → V) (steps : Dict T (V → V)) (queue : List (T × Chain T V)) (seen : List T)
      → (n == to) ≡ true
      → (expand to taken ((n, c) ∷ steps) queue seen).0 ≡ some (taken ++ (n, c) ∷ [])
  unfolding expand
  expand-found n c steps queue seen h = ground arith

  expand-skip :
      (n : T) (c : V → V) (steps : Dict T (V → V)) (queue : List (T × Chain T V)) (seen : List T)
      → (n == to) ≡ false
      → contains n seen ≡ true
      → expand to taken ((n, c) ∷ steps) queue seen ≡ expand to taken steps queue seen
  unfolding expand
  expand-skip n c steps queue seen h old = rw (h, old) refl

  expand-push :
      (n : T) (c : V → V) (steps : Dict T (V → V)) (queue : List (T × Chain T V)) (seen : List T)
      → (n == to) ≡ false
      → contains n seen ≡ false
      → expand to taken ((n, c) ∷ steps) queue seen
        ≡ expand to taken steps (queue ++ (n, taken ++ (n, c) ∷ []) ∷ []) (seen ++ n ∷ [])
  unfolding expand
  expand-push n c steps queue seen h new = rw (h, new) refl

  module _ (start : Linked edges from taken current) where
    -- A chain that is found is one cast longer than the one before.
    pub expand-finds :
        (steps : Dict T (V → V)) (queue : List (T × Chain T V)) (seen : List T) (chain : Chain T V)
        → ((n : T) (c : V → V) → Has (n, c) steps → Has (n, c) (steps_from current edges))
        → (expand to taken steps queue seen).0 ≡ some chain
        → Linked edges from chain to × (length chain ≡ suc (length taken))
    expand-finds [] queue seen chain inside found = absurd (unfold expand in cc)
    expand-finds ((n, c) ∷ steps) queue seen chain inside found = elim (Bool-cases (n == to)) [
      | inl hit ↦
          let same : chain ≡ taken ++ (n, c) ∷ [] =
            ground (arith, expand-found n c steps queue seen hit) in
          let linked = Linked-append edges from current n c taken start (inside n c (inl refl)) in
          (
            subst (λ (k : Chain T V). Linked edges from k to) (sym same)
                (subst (λ (t : T). Linked edges from (taken ++ (n, c) ∷ []) t)
                  ((e.same_iff n to).0 hit) linked),
            ground (arith, length-append taken ((n, c) ∷ [])),
          )
      | inr miss ↦
          let rest = λ (m : T) (d : V → V) (h : Has (m, d) steps). inside m d (inr h) in
          elim (Bool-cases (contains n seen)) [
            | inl old ↦
                expand-finds steps queue seen chain rest
                  (rw (← expand-skip n c steps queue seen miss old) found)
            | inr new ↦
                expand-finds steps (queue ++ (n, taken ++ (n, c) ∷ []) ∷ []) (seen ++ n ∷ []) chain
                  rest (rw (← expand-push n c steps queue seen miss new) found)
          ]
    ]

    Turned-skip :
        (n : T) (c : V → V) (steps : Dict T (V → V)) (queue queue' : List (T × Chain T V))
        (seen seen' : List T)
        → n ≢ to
        → contains n seen ≡ true
        → Turned steps queue queue' seen seen'
        → Turned ((n, c) ∷ steps) queue queue' seen seen'
    Turned-skip n c steps queue queue' seen seen' miss old t = record {
      grows = t.grows;
      stepped = λ m d. elim [
        | inl same ↦
            let m_n = ap (λ (p : T × (V → V)). p.0) same in
            (t.grows m (rw m_n old), λ hit. miss (sym m_n ∙ hit))
        | inr h ↦ t.stepped m d h
      ];
      origin = t.origin;
      kept = t.kept;
      linked = t.linked;
      levels = t.levels;
      measured = t.measured;
    }

    Turned-push :
        (n : T) (c : V → V) (steps : Dict T (V → V)) (queue queue' : List (T × Chain T V))
        (seen seen' : List T)
        → n ≢ to
        → contains n seen ≡ false
        → Has (n, c) (steps_from current edges)
        → Turned steps (queue ++ (n, taken ++ (n, c) ∷ []) ∷ []) queue' (seen ++ n ∷ []) seen'
        → Turned ((n, c) ∷ steps) queue queue' seen seen'
    Turned-push n c steps queue queue' seen seen' miss new inside t =
        let entry : T × Chain T V = (n, taken ++ (n, c) ∷ []) in
        let now : contains n (seen ++ n ∷ []) ≡ true =
          ground (arith, contains-append n seen (n ∷ []), same_refl n) in
        let entered =
          t.kept n (taken ++ (n, c) ∷ [])
            ((Has-append entry queue (entry ∷ [])).1 (inr (inl refl))) in
        record {
          grows = λ u h. t.grows u (ground (arith, contains-append u seen (n ∷ [])));
          stepped = λ m d. elim [
            | inl same ↦
                let m_n = ap (λ (p : T × (V → V)). p.0) same in
                (t.grows m (rw m_n now), λ hit. miss (sym m_n ∙ hit))
            | inr h ↦ t.stepped m d h
          ];
          origin = λ u h. elim (t.origin u h) [
            | inl there ↦ elim (Bool-cases (contains u seen)) [
              | inl old ↦ inl old
              | inr fresh ↦
                  let n_u : n ≡ u =
                    (e.same_iff n u).0 (ground (arith, contains-append u seen (n ∷ []))) in
                  inr (
                    taken ++ (n, c) ∷ [],
                    subst (λ v. Has (v, taken ++ (n, c) ∷ []) queue') n_u entered,
                  )
            ]
            | inr queued ↦ inr queued
          ];
          kept = λ u k h. t.kept u k ((Has-append (u, k) queue (entry ∷ [])).1 (inl h));
          linked = λ u k h. elim (t.linked u k h) [
            | inl before ↦ elim ((Has-append (u, k) queue (entry ∷ [])).0 before) [
              | inl old ↦ inl old
              | inr (inl same) ↦
                  let u_n = ap (λ (p : T × Chain T V). p.0) same in
                  let k_n = ap (λ (p : T × Chain T V). p.1) same in
                  inr (
                    rw (u_n, k_n) (Linked-append edges from current n c taken start inside),
                    λ hit. miss (sym u_n ∙ hit),
                  )
              | inr (inr nowhere) ↦ absurd nowhere
            ]
            | inr made ↦ inr made
          ];
          levels = λ low h. t.levels low (
              Levels-push edges low (suc (length taken)) n (taken ++ (n, c) ∷ []) queue
                (omega (arith, length-append taken ((n, c) ∷ []))) h);
          measured = omega (
            arith,
            t.measured,
            length-append queue (entry ∷ []),
            unseen_of-fewer edges seen n current c edges inside new,
          );
        }

    -- A turn that finds no chain.
    pub expand-Turned :
        (steps : Dict T (V → V)) (queue : List (T × Chain T V)) (seen : List T)
        → ((n : T) (c : V → V) → Has (n, c) steps → Has (n, c) (steps_from current edges))
        → (expand to taken steps queue seen).0 ≡ none
        → Turned steps queue
            (expand to taken steps queue seen).1.0
            seen
            (expand to taken steps queue seen).1.1
    expand-Turned [] queue seen inside missed =
        unfold expand in
        record {
          grows = λ t h. h;
          stepped = λ n c h. absurd h;
          origin = λ t h. inl h;
          kept = λ t k h. h;
          linked = λ t k h. inl h;
          levels = λ low h. h;
          measured = omega arith;
        }
    expand-Turned ((n, c) ∷ steps) queue seen inside missed = elim (Bool-cases (n == to)) [
      | inl hit ↦ absurd (ground (arith, expand-found n c steps queue seen hit))
      | inr miss ↦
          let n_to : n ≢ to = λ same. ground (arith, (e.same_iff n to).1 same) in
          let rest = λ (m : T) (d : V → V) (h : Has (m, d) steps). inside m d (inr h) in
          elim (Bool-cases (contains n seen)) [
            | inl old ↦
                let same = expand-skip n c steps queue seen miss old in
                rw same (
                  Turned-skip n c steps queue _ seen _ n_to old
                    (expand-Turned steps queue seen rest (rw (← same) missed)))
            | inr new ↦
                let same = expand-push n c steps queue seen miss new in
                rw same (
                  Turned-push n c steps queue _ seen _ n_to new (inside n c (inl refl)) (
                    expand-Turned steps (queue ++ (n, taken ++ (n, c) ∷ []) ∷ []) (seen ++ n ∷ [])
                      rest (rw (← same) missed)))
          ]
    ]
