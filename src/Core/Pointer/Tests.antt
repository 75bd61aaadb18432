-- ===== src/Core/Pointer/Tests.antt =====
-- Pointers to a few values.
use benzene_python.Prelude.{◌≡◌, refl, some, none, [], ◌∷◌}
use benzene_python.Core.Pointer.{
  Text, replace_char, replace_pair, json_pointer, split, pointer_segments, join_dotted,
  pointer_to_dotted,
}
use benzene_python.Core.Pointer.Trip.{pointer_segments-json_pointer}

-- a/b and ~1
abbrev odd : Text
odd = b'a' ∷ b'/' ∷ b'b' ∷ []

abbrev tilde_one : Text
tilde_one = b'~' ∷ b'1' ∷ []

pointer_runs :
    (json_pointer (odd ∷ tilde_one ∷ [])
      ≡ b'/' ∷ b'a' ∷ b'~' ∷ b'1' ∷ b'b' ∷ b'/' ∷ b'~' ∷ b'0' ∷ b'1' ∷ [])
    × (pointer_segments odd ≡ none)
    × (pointer_to_dotted (b'/' ∷ b'a' ∷ b'/' ∷ b'0' ∷ b'/' ∷ b'b' ∷ [])
        ≡ b'a' ∷ b'[' ∷ b'0' ∷ b']' ∷ b'.' ∷ b'b' ∷ [])
unfolding json_pointer replace_char replace_pair split pointer_segments join_dotted
    pointer_to_dotted
pointer_runs = (refl, refl, refl)

pointer_segments-json_pointer_example :
    pointer_segments (json_pointer (odd ∷ tilde_one ∷ [])) ≡ some (odd ∷ tilde_one ∷ [])
pointer_segments-json_pointer_example = pointer_segments-json_pointer (odd ∷ tilde_one ∷ [])
