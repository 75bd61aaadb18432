-- ===== src/Mesh/Issues/Totals.antt =====
-- What the merge of error detail keeps: the totals of each pair, the highest first, ten at most.
use benzene_python.Prelude.{
  Has-All, All-take, Has-map, map-Has, All-Has, zero, ℕ, suc, ◌+◌, ◌≤◌, ◌≡◌, refl, ap, ◌∙◌, ◌⊎◌,
  inl, inr, Bool, true, false, none, some, List, [], ◌∷◌, ◌++◌, map, take, length, length-take,
  arith, if◌then◌else◌, ◌==◌, text_key, option_key, pair_key, All, Has, Ordered, Ordered-sorted_by,
  Has-sorted_by, sorted_by, Bool-cases,
}
use benzene_python.Dict.{Dict, get, put}
use benzene_python.Dict.Laws.{get-put}
use benzene_python.Dict.Unique.{Unique, Unique-put, get-Has, Has-get}
use benzene_python.Mesh.Issues.{
  IssueError, Pair, key_of, says_nothing, amount, tally, to_entry, issue_error_order,
  merge_issue_errors,
}

-- how often a pair was counted
abbrev pub total : Pair → List IssueError → ℕ
total k [] = 0
total k (e ∷ es) = if key_of e == k then e.count + total k es else total k es

-- the pair is that of some entry
abbrev pub names : Pair → List IssueError → Bool
names k [] = false
names k (e ∷ es) = if key_of e == k then true else names k es

-- the write of one entry
get_counted :
    (k q : Pair) (n : ℕ) (d : Dict Pair ℕ)
    → says_nothing k ≡ false
    → get k (if says_nothing q then d else put q (amount (get q d) + n) d)
      ≡ (if q == k then some (amount (get k d) + n) else get k d)
get_counted k q n d h = elim (Bool-cases (says_nothing q)) [
  | inl nothing ↦
      let q_none = (pair_key.same_iff q (none, none)).0 nothing in
      let apart : (q == k) ≡ false =
        rw q_none
          (ground (arith, pair_key.same_iff k (none, none), pair_key.same_iff (none, none) k)) in
      rw (nothing, apart) refl
  | inr something ↦
      rw (something, get-put q k (amount (get q d) + n) d)
        (elim (Bool-cases (q == k)) [
          | inl same ↦
              rw same (ap (λ j. some (amount (get j d) + n)) ((pair_key.same_iff q k).0 same))
          | inr other ↦ rw other refl
        ])
]

-- nothing is counted of a pair that no entry has
total-names : (k : Pair) (es : List IssueError) → names k es ≡ false → total k es ≡ 0
total-names k [] h = refl
total-names k (e ∷ es) h = elim (Bool-cases (key_of e == k)) [
  | inl same ↦ absurd (cc (rw same at h))
  | inr other ↦ let rest : names k es ≡ false = rw other at h in rw other (total-names k es rest)
]

get-tally :
    (k : Pair) (es : List IssueError) (d : Dict Pair ℕ)
    → says_nothing k ≡ false
    → get k (tally es d) ≡ (if names k es then some (amount (get k d) + total k es) else get k d)
unfolding tally
get-tally k [] d h = refl
get-tally k (e ∷ es) d h =
    get-tally k es _ h
    ∙ rw (get_counted k (key_of e) e.count d h) (elim (Bool-cases (key_of e == k)) [
      | inl same ↦ rw same (elim (Bool-cases (names k es)) [
        | inl more ↦ rw more (ap some (omega arith))
        | inr last ↦ rw last (ap some (omega (arith, total-names k es last)))
      ])
      | inr other ↦ rw other refl
    ])

get_counted_nothing :
    (q : Pair) (n : ℕ) (d : Dict Pair ℕ)
    → get (none, none) d ≡ none
    → get (none, none) (if says_nothing q then d else put q n d) ≡ none
get_counted_nothing q n d h = elim (Bool-cases (says_nothing q)) [
  | inl nothing ↦ rw nothing h
  | inr something ↦ rw (something, get-put q (none, none) n d, something) h
]

get-tally_nothing :
    (es : List IssueError) (d : Dict Pair ℕ)
    → get (none, none) d ≡ none
    → get (none, none) (tally es d) ≡ none
unfolding tally
get-tally_nothing [] d h = h
get-tally_nothing (e ∷ es) d h = get-tally_nothing es _ (get_counted_nothing (key_of e) _ d h)

Unique-counted :
    (q : Pair) (n : ℕ) (d : Dict Pair ℕ)
    → Unique d
    → Unique (if says_nothing q then d else put q n d)
Unique-counted q n d h = elim (Bool-cases (says_nothing q)) [
  | inl nothing ↦ rw nothing h
  | inr something ↦ rw something (Unique-put q n d h)
]

Unique-tally : (es : List IssueError) (d : Dict Pair ℕ) → Unique d → Unique (tally es d)
unfolding tally
Unique-tally [] d h = h
Unique-tally (e ∷ es) d h = Unique-tally es _ (Unique-counted (key_of e) _ d h)

-- by count, the highest first
abbrev pub AtLeast : IssueError → IssueError → Type 0
AtLeast a b = b.count ≤ a.count

order_AtLeast : (a b : IssueError) → issue_error_order a b ≡ true → AtLeast a b
unfolding issue_error_order
order_AtLeast a b h = ground arith

order_AtMost : (a b : IssueError) → issue_error_order a b ≡ false → AtLeast b a
unfolding issue_error_order
order_AtMost a b h = ground arith

Ordered-take : (n : ℕ) (xs : List IssueError) → Ordered AtLeast xs → Ordered AtLeast (take n xs)
Ordered-take zero xs h = tt
Ordered-take (suc n) [] h = tt
Ordered-take (suc n) (x ∷ xs) h = (All-take (AtLeast x) n xs h.0, Ordered-take n xs h.1)

-- An element is taken, or n are, each of at least its count.
Has-take :
    (n : ℕ) (x : IssueError) (xs : List IssueError)
    → Ordered AtLeast xs
    → Has x xs
    → Has x (take n xs) ⊎ ((length (take n xs) ≡ n) × All (λ y. AtLeast y x) (take n xs))
Has-take n x [] o h = absurd h
Has-take zero x (y ∷ ys) o h = inr (refl, tt)
Has-take (suc n) x (y ∷ ys) o (inl same) = inl (inl same)
Has-take (suc n) x (y ∷ ys) o (inr h) = elim (Has-take n x ys o.1 h) [
  | inl taken ↦ inl (inr taken)
  | inr (full, above) ↦ inr (omega (arith, full), (Has-All (AtLeast y) x ys o.0 h, above))
]

module _ (existing delta : List IssueError) where
  abbrev counted : Dict Pair ℕ
  counted = tally (existing ++ delta) []

  get-counted :
      (k : Pair) (n : ℕ)
      → get k counted ≡ some n
      → (says_nothing k ≡ false) × (n ≡ total k (existing ++ delta))
  unfolding get
  get-counted k n found = elim (Bool-cases (says_nothing k)) [
    | inl nothing ↦
        let k_none = (pair_key.same_iff k (none, none)).0 nothing in
        let absent : get k counted ≡ none =
          rw k_none (get-tally_nothing (existing ++ delta) [] refl) in
        absurd (cc)
    | inr something ↦
        let all : get k counted
            ≡ (if names k (existing ++ delta) then some (total k (existing ++ delta)) else none) =
          ground (arith, get-tally k (existing ++ delta) [] something) in
        (something, ground arith)
  ]

  entry-counted :
      (e : IssueError)
      → Has e (map to_entry counted)
      → (says_nothing (e.field, e.code) ≡ false)
        × (e.count ≡ total (e.field, e.code) (existing ++ delta))
  entry-counted e h =
      let ((k, n), there, same) = map-Has to_entry e counted h in
      let found = get-Has k n counted (Unique-tally (existing ++ delta) [] tt) there in
      let f_k = ap (λ (x : IssueError). x.field) same in
      let c_k = ap (λ (x : IssueError). x.code) same in
      let count_n = ap (λ (x : IssueError). x.count) same in
      rw (f_k, c_k, count_n) (get-counted k n found)

  -- Of the detail merged, every entry carries the total of its pair over both sides; the counts do
  -- not rise along the list; there are ten entries at most; and a pair that some side counts, and
  -- that names a field or a code, has its entry, unless ten others stand there with totals no
  -- lower.
  pub merge_issue_errors_totals :
      (k : Pair)
      → says_nothing k ≡ false
      → names k (existing ++ delta) ≡ true
      → let merged = merge_issue_errors existing delta in
        All (λ e. e.count ≡ total (e.field, e.code) (existing ++ delta)) merged
        × Ordered AtLeast merged
        × (length merged ≤ 10)
        × (Has (to_entry (k, total k (existing ++ delta))) merged
            ⊎ ((length merged ≡ 10) × All (λ e. total k (existing ++ delta) ≤ e.count) merged))
  unfolding merge_issue_errors get
  merge_issue_errors_totals k something named =
      let ordered =
        Ordered-sorted_by AtLeast issue_error_order order_AtLeast order_AtMost
          (λ a b c h i. omega (arith, h, i)) (map to_entry counted) in
      let rest = sorted_by issue_error_order (map to_entry counted) in
      let found : get k counted ≡ some (total k (existing ++ delta)) =
        ground (arith, get-tally k (existing ++ delta) [] something) in
      (
        All-take (λ e. e.count ≡ total (e.field, e.code) (existing ++ delta)) 10 rest
            (All-Has (λ e. e.count ≡ total (e.field, e.code) (existing ++ delta)) rest
              (λ e h.
                (entry-counted e
                  ((Has-sorted_by issue_error_order e (map to_entry counted)).0 h)).1)),
        Ordered-take 10 rest ordered,
        omega (arith, length-take 10 rest),
        Has-take 10 (to_entry (k, total k (existing ++ delta))) rest ordered (
            (Has-sorted_by issue_error_order _ (map to_entry counted)).1 (
              Has-map to_entry (k, total k (existing ++ delta)) counted
                (Has-get k _ counted found))),
      )
