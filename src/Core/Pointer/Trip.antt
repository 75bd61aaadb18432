-- ===== src/Core/Pointer/Trip.antt =====
-- A pointer read back into its segments.
use benzene_python.Prelude.{
  ℕ, ◌≡◌, refl, ap, ◌∙◌, inl, inr, false, some, List, [], ◌∷◌, ◌++◌, map, ◌==◌, number_key, All,
  Bool-cases,
}
use benzene_python.Core.Pointer.{
  Text, replace_char, replace_pair, escape, unescape, json_pointer, split, pointer_segments,
}

-- the first replacement of `escape`, and the text that it makes without a slash
abbrev tildes : Text → Text
tildes = replace_char b'~' (b'~' ∷ b'0' ∷ [])

-- A character that does not start the pair is kept.
pair_skip :
    (a b x : ℕ) (by t : Text)
    → (x == a) ≡ false
    → replace_pair a b by (x ∷ t) ≡ x ∷ replace_pair a b by t
unfolding replace_pair
pair_skip a b x by [] other = refl
pair_skip a b x by (y ∷ t) other = rw other refl

slashes_undone : (s : Text) → replace_pair b'~' b'1' (b'/' ∷ []) (escape s) ≡ tildes s
unfolding replace_char replace_pair
slashes_undone [] = refl
slashes_undone (x ∷ s) = elim (Bool-cases (x == b'~')) [
  | inl tilde ↦ rw tilde (
      ap (λ (t : Text). b'~' ∷ t)
        (pair_skip b'~' b'1' b'0' (b'/' ∷ []) (escape s) refl
          ∙ ap (λ (t : Text). b'0' ∷ t) (slashes_undone s)))
  | inr plain ↦ elim (Bool-cases (x == b'/')) [
    | inl slash ↦
        rw (plain, slash) (rw (slashes_undone s, (number_key.same_iff x b'/').0 slash) refl)
    | inr other ↦
        rw (plain, other)
          (pair_skip b'~' b'1' x (b'/' ∷ []) (escape s) plain
            ∙ ap (λ (t : Text). x ∷ t) (slashes_undone s))
  ]
]

tildes_undone : (s : Text) → replace_pair b'~' b'0' (b'~' ∷ []) (tildes s) ≡ s
unfolding replace_char replace_pair
tildes_undone [] = refl
tildes_undone (x ∷ s) = elim (Bool-cases (x == b'~')) [
  | inl tilde ↦ rw tilde (rw (tildes_undone s, (number_key.same_iff x b'~').0 tilde) refl)
  | inr plain ↦ rw plain (
      pair_skip b'~' b'0' x (b'~' ∷ []) (tildes s) plain
      ∙ ap (λ (t : Text). x ∷ t) (tildes_undone s))
]

unescape-escape : (s : Text) → unescape (escape s) ≡ s
unescape-escape s = ap (replace_pair b'~' b'0' (b'~' ∷ [])) (slashes_undone s) ∙ tildes_undone s

escape_free : (s : Text) → All (λ x. (x == b'/') ≡ false) (escape s)
unfolding replace_char
escape_free [] = tt
escape_free (x ∷ s) = elim (Bool-cases (x == b'~')) [
  | inl tilde ↦ rw tilde (refl, (refl, escape_free s))
  | inr plain ↦ elim (Bool-cases (x == b'/')) [
    | inl slash ↦ rw (plain, slash) (refl, (refl, escape_free s))
    | inr other ↦ rw (plain, other) (other, escape_free s)
  ]
]

split-free :
    (s rest : Text)
    → All (λ x. (x == b'/') ≡ false) s
    → split b'/' (s ++ b'/' ∷ rest) ≡ s ∷ split b'/' rest
unfolding split
split-free [] rest h = refl
split-free (x ∷ s) rest h = rw (h.0, split-free s rest h.1) refl

split-last : (s : Text) → All (λ x. (x == b'/') ≡ false) s → split b'/' (s ++ []) ≡ s ∷ []
unfolding split
split-last [] h = refl
split-last (x ∷ s) h = rw (h.0, split-last s h.1) refl

split-segments :
    (s : Text) (segments : List Text)
    → split b'/' (escape s ++ json_pointer segments) ≡ map escape (s ∷ segments)
unfolding json_pointer
split-segments s [] = split-last (escape s) (escape_free s)
split-segments s (t ∷ segments) =
    split-free (escape s) (escape t ++ json_pointer segments) (escape_free s)
    ∙ ap (λ (ps : List Text). escape s ∷ ps) (split-segments t segments)

unescape_all : (segments : List Text) → map unescape (map escape segments) ≡ segments
unescape_all [] = refl
unescape_all (s ∷ segments) = rw (unescape-escape s, unescape_all segments) refl

-- The pointer made of a path's segments is read back into them, whatever characters they have: none
-- is taken for an escape or a separator that it is not.
pub pointer_segments-json_pointer :
    (segments : List Text) → pointer_segments (json_pointer segments) ≡ some segments
unfolding pointer_segments json_pointer
pointer_segments-json_pointer [] = refl
pointer_segments-json_pointer (s ∷ segments) =
    ap some (ap (map unescape) (split-segments s segments) ∙ unescape_all (s ∷ segments))
