-- ===== src/Mesh/Issues/Wire.antt =====
-- The wire form of an issue's error detail, read back.
use benzene_python.Prelude.{
  All-append, pair_key, option_key, Option-cases, ℕ, sym, ◌++◌, Bool-cases, inl, inr, All-take,
  All-Has, Has-All, map-Has, Has-sorted_by, ℕ, String, ◌≡◌, ◌≢◌, refl, false, Option, none, some,
  List, [], ◌∷◌, map, arith, All, text_key, number_key,
}
use benzene_python.Dict.{Dict, get}
use benzene_python.Dict.Laws.{put-All}
use mathlib.Core.Path.{subst}
use benzene_python.Json.{Json, object, array, items, members}
use benzene_python.Mesh.Issues.{
  error_payloads, kept, entry_of, positive_count, Pair, key_of, tally, to_entry, issue_error_order,
  merge_issue_errors, IssueError, to_payload, decode_item, decode_issue_errors, or_none,
  says_nothing,
}

-- What a reader accepts: some member, none of them empty, and a positive count.
abbrev pub IsEntry : IssueError → Type 0
IsEntry e =
    (says_nothing (e.field, e.code) ≡ false)
    × (or_none e.field ≡ e.field)
    × (or_none e.code ≡ e.code)
    × (e.count ≢ 0)

decode_item-parts :
    (f c : Option String) (n : ℕ)
    → let e : IssueError = record { field = f; code = c; count = n } in
      IsEntry e → decode_item (object (to_payload e)) ≡ some e
unfolding decode_item to_payload get
decode_item-parts none none n h = ground (arith)
decode_item-parts none (some c) n h = ground (arith, number_key.same_iff n 0)
decode_item-parts (some f) none n h = ground (arith, number_key.same_iff n 0)
decode_item-parts (some f) (some c) n h = ground (arith, number_key.same_iff n 0)

pub decode_issue_errors-error_payloads :
    (es : List IssueError) → All IsEntry es → decode_issue_errors (array (error_payloads es)) ≡ es
unfolding decode_issue_errors
decode_issue_errors-error_payloads [] h = refl
decode_issue_errors-error_payloads (e ∷ es) h =
    rw (decode_item-parts e.field e.code e.count h.0, decode_issue_errors-error_payloads es h.1)
      refl

-- What the detail of a window or of an issue holds of a pair.
abbrev Counted : Pair × ℕ → Type 0
Counted p =
    (says_nothing p.0 ≡ false) × (or_none p.0.0 ≡ p.0.0) × (or_none p.0.1 ≡ p.0.1) × (p.1 ≢ 0)

or_none_idem : (o : Option String) → or_none (or_none o) ≡ or_none o
or_none_idem o = ground arith

tally-All :
    (es : List IssueError) (d : Dict Pair ℕ)
    → All (λ e. e.count ≢ 0) es
    → All Counted d
    → All Counted (tally es d)
unfolding tally
tally-All [] d h all = all
tally-All (e ∷ es) d h all = tally-All es _ h.1 (elim (Bool-cases (says_nothing (key_of e))) [
  | inl nothing ↦ rw nothing all
  | inr something ↦ rw something (
      put-All Counted (key_of e) _ d
        (something, or_none_idem e.field, or_none_idem e.code, omega (arith, h.0)) all)
])

merge-IsEntry :
    (existing delta : List IssueError)
    → All (λ e. e.count ≢ 0) (existing ++ delta)
    → All IsEntry (merge_issue_errors existing delta)
unfolding merge_issue_errors
merge-IsEntry existing delta h =
    let d = tally (existing ++ delta) [] in
    let counted : All Counted d = tally-All (existing ++ delta) [] h tt in
    All-take IsEntry 10 _ (
      All-Has IsEntry _ (λ e there.
        let (p, inside, same) =
          map-Has to_entry e d ((Has-sorted_by issue_error_order e (map to_entry d)).0 there) in
        subst IsEntry (sym same) (Has-All Counted p d counted inside)))

positive_count-counted : (o : Option Json) (n : ℕ) → positive_count o ≡ some n → n ≢ 0
positive_count-counted o n found = ground (arith, number_key.same_iff n 0)

entry_of-counted :
    (o : Option ℕ) (f c : Option (Option String)) (e : IssueError)
    → ((n : ℕ) → o ≡ some n → n ≢ 0)
    → entry_of o f c ≡ some e
    → e.count ≢ 0
entry_of-counted none f c e h found = absurd (cc)
entry_of-counted (some n) none c e h found = absurd (cc)
entry_of-counted (some n) (some f) none e h found = absurd (cc)
entry_of-counted (some n) (some f) (some c) e h found = elim (Bool-cases (says_nothing (f, c))) [
  | inl nothing ↦ absurd (cc (rw nothing at found))
  | inr something ↦
      let same : some (record { field = f; code = c; count = n }) ≡ some e =
        rw something at found in
      ground (arith, h n refl)
]

decode_item-counted : (v : Json) (e : IssueError) → decode_item v ≡ some e → e.count ≢ 0
unfolding decode_item
decode_item-counted (object ms) e found =
    entry_of-counted (positive_count (get "count" (members ms))) _ _ e
      (positive_count-counted (get "count" (members ms))) found
decode_item-counted v e found = absurd (cc)

kept-counted : (vs : List Json) → All (λ (e : IssueError). e.count ≢ 0) (kept (map decode_item vs))
kept-counted [] = tt
kept-counted (v ∷ vs) = elim (Option-cases (decode_item v)) [
  | inl skipped ↦ rw skipped (kept-counted vs)
  | inr (e, found) ↦ rw found (decode_item-counted v e found, kept-counted vs)
]

decode-counted : (v : Json) → All (λ (e : IssueError). e.count ≢ 0) (decode_issue_errors v)
unfolding decode_issue_errors
decode-counted (array vs) = kept-counted (items vs)
decode-counted v = tt

-- The merge of two members read from the wire, written to the wire, is read back as it was.
pub decode-merge :
    (existing delta : Json)
    → let merged = merge_issue_errors (decode_issue_errors existing) (decode_issue_errors delta) in
      decode_issue_errors (array (error_payloads merged)) ≡ merged
decode-merge existing delta = decode_issue_errors-error_payloads _ (
    merge-IsEntry _ _ (
      All-append (λ (e : IssueError). e.count ≢ 0) (decode_issue_errors existing) _
        (decode-counted existing) (decode-counted delta)))
