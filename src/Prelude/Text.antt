-- ===== src/Prelude/Text.antt =====
-- Texts put together.
use Prim.Native.String.{String, ◌++◌ as str_append}
use Prim.Native.Char.{code}
use mathlib.Core.Bool.{Bool}
use mathlib.Core.Option.{Option, none, some}
use benzene_python.Prelude.Tests.{nat_eqb, is_some, if◌then◌else◌}
use mathlib.Core.List.{List, [], ◌∷◌}

infixr 60 ◌⊕◌
abbrev pub ◌⊕◌ : String → String → String
s ⊕ t = str_append s t

-- `", ".join(parts)`
abbrev pub join : List String → String
join [] = ""
join (p ∷ []) = p
join (p ∷ q ∷ ps) = p ⊕ ", " ⊕ join (q ∷ ps)

-- `s[len(p):]` of a text that starts with `p`
abbrev pub after_prefix : String → String → Option String
after_prefix String.[] s = some s
after_prefix (String.◌∷◌ c p) String.[] = none
after_prefix (String.◌∷◌ c p) (String.◌∷◌ d s) =
    if nat_eqb (code c) (code d) then after_prefix p s else none

-- `s.startswith(p)`
abbrev pub starts_with : String → String → Bool
starts_with s p = is_some (after_prefix p s)
