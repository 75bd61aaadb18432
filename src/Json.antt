-- ===== src/Json.antt =====
-- A decoded JSON value as Python holds it (`json.loads`): the values that the wire readers inspect.
use benzene_python.Prelude.{
  ℕ, String, Bool, true, false, not, Option, none, some, List, [], ◌∷◌, ◌==◌, text_key, number_key,
}
use benzene_python.Dict.{Dict}

mutual
  pub data Json : Type 0 where
    null : Json
    boolean : Bool → Json
    -- an `int`: n, and -(n + 1)
    integer negative : ℕ → Json
    -- a `float`, by whether it is zero and its text
    real : Bool → String → Json
    text : String → Json
    array : Items → Json
    object : Members → Json

  pub data Items : Type 0 where
    nil : Items
    cons : Json → Items → Items

  pub data Members : Type 0 where
    end : Members
    member : String → Json → Members → Members

abbrev pub items : Items → List Json
items nil = []
items (cons v vs) = v ∷ items vs

abbrev pub members : Members → Dict String Json
members end = []
members (member k v ms) = (k, v) ∷ members ms

-- Python's truth of a value, as in `x or y` and `if not x`.
unfoldable pub truthy : Json → Bool
truthy null = false
truthy (boolean b) = b
truthy (integer n) = not (n == 0)
truthy (negative n) = true
truthy (real is_zero s) = not is_zero
truthy (text s) = not (s == "")
truthy (array nil) = false
truthy (array (cons v vs)) = true
truthy (object end) = false
truthy (object (member k v ms)) = true

-- A JSON `null` is Python's `None`, the answer of `d.get(k)` for a key that is not there.
abbrev pub not_none : Option Json → Option Json
not_none none = none
not_none (some null) = none
not_none (some v) = some v

-- back to a JSON array, and to a JSON object
abbrev pub to_items : List Json → Items
to_items [] = nil
to_items (v ∷ vs) = cons v (to_items vs)

abbrev pub to_members : Dict String Json → Members
to_members [] = end
to_members ((k, v) ∷ d) = member k v (to_members d)
