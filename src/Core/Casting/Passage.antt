-- ===== src/Core/Casting/Passage.antt =====
-- The invariant of the search: along each chain to the target some type stands in the queue, and
-- the seen types have no unseen successor.
use mathlib.Core.Path.{subst}
use benzene_python.Prelude.{
  ℕ, suc, ◌+◌, ◌≤◌, ◌≡◌, ◌≢◌, sym, ap, ◌⊎◌, inl, inr, true, List, [], ◌∷◌, arith, contains, length,
  Key, Has,
}
use benzene_python.Core.Casting.{Edges, Chain, steps_from}
use benzene_python.Core.Casting.Search.{Linked, Levels, Levels-relax, Levels-Has}
use benzene_python.Core.Casting.Turn.{Queued, Turned}

module _ {T V : Type 0} ⦃e : Key T⦄ (edges : Edges T V) (from to : T) where
  -- Along the casts of a chain to the target, some type before the end stands in the queue, with a
  -- chain no longer than the way to it.
  abbrev pub Ahead : List (T × Chain T V) → T → ℕ → Chain T V → Type 0
  Ahead queue v k [] = ⊥
  Ahead queue v k ((n, c) ∷ rest) =
      ((taken : Chain T V) × Has (v, taken) queue × (length taken ≤ k)) ⊎ Ahead queue n (suc k) rest

  Ahead-widen :
      (queue : List (T × Chain T V)) (v : T) (k m : ℕ) (rest : Chain T V)
      → k ≤ m
      → Ahead queue v k rest
      → Ahead queue v m rest
  Ahead-widen queue v k m [] le h = h
  Ahead-widen queue v k m ((n, c) ∷ rest) le (inl (taken, there, short)) =
      inl (taken, there, omega (arith, short))
  Ahead-widen queue v k m ((n, c) ∷ rest) le (inr h) =
      inr (Ahead-widen queue n (suc k) (suc m) rest (omega arith) h)

  pub Ahead-le :
      (low high : ℕ) (queue : List (T × Chain T V)) (v : T) (k : ℕ) (rest : Chain T V)
      → Levels edges low high queue
      → Ahead queue v k rest
      → suc low ≤ k + length rest
  Ahead-le low high queue v k [] levels h = absurd h
  Ahead-le low high queue v k ((n, c) ∷ rest) levels (inl (taken, there, short)) =
      omega (arith, short, (Levels-Has edges low high v taken queue levels there).0)
  Ahead-le low high queue v k ((n, c) ∷ rest) levels (inr h) =
      omega (arith, Ahead-le low high queue n (suc k) rest levels h)

  abbrev Closed : List (T × Chain T V) → List T → Type 0
  Closed queue seen =
      (t : T)
      → contains t seen ≡ true
      → Queued edges from to from [] queue t
        ⊎ ((n : T) (c : V → V)
            → Has (n, c) (steps_from t edges)
            → (contains n seen ≡ true) × (n ≢ to))

  abbrev Missed : List T → Type 0
  Missed seen = (t : T) → contains t seen ≡ true → t ≢ to

  -- From a seen type every chain to the target passes the queue.
  seen-Ahead :
      (queue : List (T × Chain T V)) (seen : List T) (b : ℕ) (t : T) (rest : Chain T V)
      → Closed queue seen
      → Missed seen
      → ((u : T) (k : Chain T V) → Has (u, k) queue → length k ≤ b)
      → contains t seen ≡ true
      → Linked edges t rest to
      → Ahead queue t b rest
  seen-Ahead queue seen b t [] closed missed short there linked = absurd (missed t there linked)
  seen-Ahead queue seen b t ((n, c) ∷ rest) closed missed short there linked =
      elim (closed t there) [
        | inl (k, queued) ↦ inl (k, queued, short t k queued)
        | inr steps ↦ inr (
            seen-Ahead queue seen (suc b) n rest closed missed (λ u k h. omega (arith, short u k h))
              ((steps n c linked.0).0) linked.1)
      ]

  -- The state of the search between turns.
  pub record Inv (low high : ℕ) (queue : List (T × Chain T V)) (seen : List T) : Type 0 where
    pub reached : (t : T) (k : Chain T V) → Has (t, k) queue → Linked edges from k t × (t ≢ to)
    pub closed : Closed queue seen
    pub missed : Missed seen
    pub levels : Levels edges low high queue
    pub narrow : high ≤ suc low
    pub ahead : (rest : Chain T V) → Linked edges from rest to → Ahead queue from 0 rest

  module _ (low high : ℕ) (current : T) (taken : Chain T V) (queue queue' : List (T × Chain T V))
      (seen seen' : List T) (i : Inv low high ((current, taken) ∷ queue) seen)
      (t : Turned edges from to current taken
        (steps_from current edges)
        queue
        queue'
        seen
        seen') where
    next-Closed : Closed queue' seen'
    next-Closed u there = elim (t.origin u there) [
      | inl before ↦ elim (i.closed u before) [
        | inl (k, inl same) ↦
            inr (λ n c h. t.stepped n c (rw (ap (λ (p : T × Chain T V). p.0) (sym same)) h))
        | inl (k, inr queued) ↦ inl (k, t.kept u k queued)
        | inr steps ↦ inr (λ n c h. (t.grows n ((steps n c h).0), (steps n c h).1))
      ]
      | inr queued ↦ inl queued
    ]

    next_reached : (u : T) (k : Chain T V) → Has (u, k) queue' → Linked edges from k u × (u ≢ to)
    next_reached u k h = elim (t.linked u k h) [
      | inl old ↦ i.reached u k (inr old)
      | inr made ↦ made
    ]

    next-Missed : Missed seen'
    next-Missed u there = elim (t.origin u there) [
      | inl before ↦ i.missed u before
      | inr (k, queued) ↦ (next_reached u k queued).1
    ]

    next-Levels : Levels edges (length taken) (suc (length taken)) queue'
    next-Levels = t.levels (length taken) (
        Levels-relax edges (length taken) high (suc (length taken)) queue
          (omega (arith, i.narrow, i.levels.0)) i.levels.1)

    next-Ahead :
        (v : T) (k : ℕ) (rest : Chain T V)
        → Linked edges v rest to
        → Ahead ((current, taken) ∷ queue) v k rest
        → Ahead queue' v k rest
    next-Ahead v k [] linked h = h
    next-Ahead v k ((n, c) ∷ rest) linked (inl (j, inl same, short)) =
        let v_current = ap (λ (p : T × Chain T V). p.0) same in
        let j_taken = ap (λ (p : T × Chain T V). length p.1) same in
        let there =
          (t.stepped n c (subst (λ u. Has (n, c) (steps_from u edges)) v_current linked.0)).0 in
        inr (
          Ahead-widen queue' n (suc (length taken)) (suc k) rest (omega (arith, short, j_taken)) (
            seen-Ahead queue' seen' (suc (length taken)) n rest next-Closed next-Missed
              (λ u l h.
                (Levels-Has edges (length taken) (suc (length taken)) u l queue' next-Levels h).1)
              there linked.1))
    next-Ahead v k ((n, c) ∷ rest) linked (inl (j, inr old, short)) = inl (j, t.kept v j old, short)
    next-Ahead v k ((n, c) ∷ rest) linked (inr h) = inr (next-Ahead n (suc k) rest linked.1 h)

    -- A turn without a find keeps the invariant.
    pub Inv-turn : Inv (length taken) (suc (length taken)) queue' seen'
    Inv-turn = record {
      reached = next_reached;
      closed = next-Closed;
      missed = next-Missed;
      levels = next-Levels;
      narrow = omega arith;
      ahead = λ rest linked. next-Ahead from 0 rest linked (i.ahead rest linked);
    }
