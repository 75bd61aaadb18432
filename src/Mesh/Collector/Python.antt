-- ===== src/Mesh/Collector/Python.antt =====
-- What the collector uses of Python on JSON values: built-ins that are parameters, and iteration.
use Prim.Native.String.{String}
use benzene_python.Prelude.{
  ℤ, Bool, true, false, Option, none, some, List, [], ◌∷◌, contains, text_key,
}
use benzene_python.Effect.{Outcome, returned, raised, error}
use benzene_python.Json.{Json, null, integer, negative, text, array, object, items, members}

pub record Python : Type 0 where
  -- `str(v)`
  pub str : Json → String
  -- `int(v)`, with the exception that it raises
  pub int : Json → Outcome ℤ
  -- `v == w`
  pub equal : Json → Json → Bool
  -- `v < w`, with the exception that it raises
  pub less : Json → Json → Outcome Bool
  -- `float(v)` of a number, with the exception that it raises, and whether a float is finite and
  -- not negative
  pub float : Json → Outcome Json
  pub is_duration : Json → Bool

abbrev pub characters : String → List Json
characters String.[] = []
characters (String.◌∷◌ c s) = text (String.◌∷◌ c String.[]) ∷ characters s

abbrev pub key_texts : List (String × Json) → List Json
key_texts [] = []
key_texts ((k, v) ∷ d) = text k ∷ key_texts d

abbrev pub not_iterable : Outcome (List Json)
not_iterable = raised (error "TypeError" "object is not iterable")

-- `list(v)`, and the values of `for x in v`
unfoldable pub iterate : Json → Outcome (List Json)
iterate (array vs) = returned (items vs)
iterate (object ms) = returned (key_texts (members ms))
iterate (text s) = returned (characters s)
iterate v = not_iterable

abbrev pub from_ℤ : ℤ → Json
from_ℤ (ℤ.pos n) = integer n
from_ℤ (ℤ.negsuc n) = negative n

-- `d.get(k)`, where an absent key reads as None
abbrev pub or_null : Option Json → Json
or_null none = null
or_null (some v) = v

-- `d.get(k, v)`
abbrev pub or_default : Json → Option Json → Json
or_default v none = v
or_default v (some w) = w

-- `v is not None`
abbrev pub is_none : Json → Bool
is_none null = true
is_none v = false

abbrev pub is_caught : String → Bool
is_caught name = contains name ("TypeError" ∷ "ValueError" ∷ [])
