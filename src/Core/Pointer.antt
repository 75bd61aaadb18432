-- ===== src/Core/Pointer.antt =====
-- packages/benzene-core/benzene/core/pointer.py: JSON pointers and dotted paths. A text is the list
-- of its code points, and a segment is given as `str` writes it. `none` is a ValueError.
pub mod Trip
mod Tests
use benzene_python.Prelude.{
  ℕ, ◌≡◌, Bool, true, false, not, ◌&&◌, Option, none, some, List, [], ◌∷◌, ◌++◌, map, if◌then◌else◌,
  ◌==◌, number_key, leb,
}

abbrev pub Text : Type 0
Text = List ℕ

-- `s.replace(c, by)`, for one character
unfoldable pub replace_char : ℕ → Text → Text → Text
replace_char c by [] = []
replace_char c by (x ∷ s) = if x == c then by ++ replace_char c by s else x ∷ replace_char c by s

-- `s.replace(a + b, by)`, for two characters
unfoldable pub replace_pair : ℕ → ℕ → Text → Text → Text
replace_pair a b by [] = []
replace_pair a b by (x ∷ []) = x ∷ []
replace_pair a b by (x ∷ y ∷ s) =
    let skipped = replace_pair a b by s in
    let kept = replace_pair a b by (y ∷ s) in if x == a && y == b then by ++ skipped else x ∷ kept

abbrev pub escape : Text → Text
escape s = replace_char b'/' (b'~' ∷ b'1' ∷ []) (replace_char b'~' (b'~' ∷ b'0' ∷ []) s)

abbrev pub unescape : Text → Text
unescape s = replace_pair b'~' b'0' (b'~' ∷ []) (replace_pair b'~' b'1' (b'/' ∷ []) s)

unfoldable pub json_pointer : List Text → Text
json_pointer [] = []
json_pointer (s ∷ segments) = b'/' ∷ escape s ++ json_pointer segments

abbrev pub onto_first : ℕ → List Text → List Text
onto_first x [] = (x ∷ []) ∷ []
onto_first x (part ∷ parts) = (x ∷ part) ∷ parts

-- `s.split(c)`
unfoldable pub split : ℕ → Text → List Text
split c [] = [] ∷ []
split c (x ∷ s) = if x == c then [] ∷ split c s else onto_first x (split c s)

unfoldable pub pointer_segments : Text → Option (List Text)
pointer_segments [] = some []
pointer_segments (x ∷ s) = if x == b'/' then some (map unescape (split b'/' s)) else none

abbrev pub all_digits : Text → Bool
all_digits [] = true
all_digits (x ∷ s) = (leb b'0' x && leb x b'9') && all_digits s

-- `segment.isdigit() and segment.isascii()`
abbrev pub is_index : Text → Bool
is_index [] = false
is_index (x ∷ s) = all_digits (x ∷ s)

abbrev pub after_dot : Text → Text → Text
after_dot [] s = s
after_dot (x ∷ dotted) s = (x ∷ dotted) ++ b'.' ∷ s

unfoldable pub join_dotted : Text → List Text → Text
join_dotted dotted [] = dotted
join_dotted dotted (s ∷ segments) =
    join_dotted (if is_index s then dotted ++ b'[' ∷ s ++ b']' ∷ [] else after_dot dotted s)
      segments

-- the loop over the segments of a pointer
abbrev pub dotted_of : Text → Option (List Text) → Text
dotted_of field none = field
dotted_of field (some segments) = join_dotted [] segments

unfoldable pub pointer_to_dotted : Text → Text
pointer_to_dotted [] = []
pointer_to_dotted (x ∷ s) =
    if x == b'/' then dotted_of (x ∷ s) (pointer_segments (x ∷ s)) else x ∷ s
