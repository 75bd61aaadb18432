-- ===== src/Dict/Unique.antt =====
-- Dicts with a key at one place only, as Python's are: a write keeps them so, and an entry of one
-- is what its key reads.
use mathlib.Core.Path.{subst}
use mathlib.Core.List.{append-nil, append_assoc}
use benzene_python.Dict.Laws.{put-fresh}
use benzene_python.Prelude.{
  Has-append, ◌≡◌, refl, sym, ap, ◌∙◌, false, none, some, [], ◌∷◌, arith, Key, ◌==◌, ◌≢◌, inl, inr,
  Bool-cases, Has, ◌++◌,
}
use benzene_python.Dict.{from_pairs, Dict, get, put}

module _ {K V : Type 0} ⦃e : Key K⦄ where
  abbrev pub Unique : Dict K V → Type 0
  Unique [] = Unit
  Unique ((k, v) ∷ d) = (get k d ≡ none) × Unique d

  get-put_other : (k j : K) (v : V) (d : Dict K V) → (k == j) ≡ false → get j (put k v d) ≡ get j d
  unfolding get put
  get-put_other k j v [] other = ground arith
  get-put_other k j v ((i, w) ∷ d) other =
      ground (arith, get-put_other k j v d other, e.same_iff i k, e.same_iff i j, e.same_iff k j)

  pub Unique-put : (k : K) (v : V) (d : Dict K V) → Unique d → Unique (put k v d)
  unfolding get put
  Unique-put k v [] h = (refl, tt)
  Unique-put k v ((j, w) ∷ d) h = elim (Bool-cases (j == k)) [
    | inl same ↦ rw same h
    | inr other ↦
        let apart : (k == j) ≡ false = ground (arith, e.same_iff k j, e.same_iff j k) in
        rw other (get-put_other k j v d apart ∙ h.0, Unique-put k v d h.1)
  ]

  pub Has-get : (k : K) (v : V) (d : Dict K V) → get k d ≡ some v → Has (k, v) d
  unfolding get
  Has-get k v [] found = absurd (cc)
  Has-get k v ((j, w) ∷ d) found = elim (Bool-cases (j == k)) [
    | inl same ↦
        let j_k = (e.same_iff j k).0 same in
        let w_v : w ≡ v = ground arith in inl (rw (j_k, w_v) refl)
    | inr other ↦ inr (Has-get k v d (ground arith))
  ]

  absent-Has : (k : K) (v : V) (d : Dict K V) → Has (k, v) d → get k d ≢ none
  unfolding get
  absent-Has k v [] h = absurd h
  absent-Has k v ((j, w) ∷ d) (inl same) =
      let k_j = ap (λ (p : K × V). p.0) same in
      λ none'. ground (arith, (e.same_iff j k).1 (sym k_j))
  absent-Has k v ((j, w) ∷ d) (inr h) = ground (arith, absent-Has k v d h)

  pub get-Has : (k : K) (v : V) (d : Dict K V) → Unique d → Has (k, v) d → get k d ≡ some v
  unfolding get
  get-Has k v [] u h = absurd h
  get-Has k v ((j, w) ∷ d) u (inl same) =
      let k_j = ap (λ (p : K × V). p.0) same in
      let v_w = ap (λ (p : K × V). p.1) same in
      let here = (e.same_iff j k).1 (sym k_j) in rw here (ap some (sym v_w))
  get-Has k v ((j, w) ∷ d) u (inr h) = elim (Bool-cases (j == k)) [
    | inl same ↦
        absurd (absent-Has k v d h (subst (λ i. get i d ≡ none) ((e.same_iff j k).0 same) u.0))
    | inr other ↦ rw other (get-Has k v d u.1 h)
  ]

  Unique-fresh : (k : K) (v : V) (d rest : Dict K V) → Unique (d ++ (k, v) ∷ rest) → get k d ≡ none
  unfolding get
  Unique-fresh k v [] rest u = refl
  Unique-fresh k v ((j, w) ∷ d) rest u = elim (Bool-cases (j == k)) [
    | inl same ↦ absurd (
        absent-Has j v (d ++ (k, v) ∷ rest)
          (subst (λ i. Has (i, v) (d ++ (k, v) ∷ rest)) (sym ((e.same_iff j k).0 same))
            ((Has-append (k, v) d ((k, v) ∷ rest)).1 (inr (inl refl))))
          u.0)
    | inr other ↦ rw other (Unique-fresh k v d rest u.1)
  ]

  from_pairs-append : (ps d : Dict K V) → Unique (d ++ ps) → from_pairs ps d ≡ d ++ ps
  unfolding from_pairs
  from_pairs-append [] d u = sym (append-nil d)
  from_pairs-append ((k, v) ∷ ps) d u =
      let moved = append_assoc d ((k, v) ∷ []) ps in
      rw (put-fresh k v d (Unique-fresh k v d ps u))
        (from_pairs-append ps (d ++ (k, v) ∷ []) (subst Unique (sym moved) u) ∙ moved)

  -- A dict is rebuilt from its items.
  pub from_pairs-Unique : (d : Dict K V) → Unique d → from_pairs d [] ≡ d
  from_pairs-Unique d u = from_pairs-append d [] u
