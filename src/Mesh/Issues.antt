-- ===== src/Mesh/Issues.antt =====
-- packages/benzene-mesh/benzene/mesh/issues.py: the classification of a failure, its fingerprint,
-- and the error detail of an issue. Counts are natural numbers.
pub mod Totals
pub mod Wire
use benzene_python.Prelude.{
  number_key, ℕ, suc, ◌+◌, String, ◌⊕◌, ◌≡◌, Bool, true, false, not, ◌||◌, ◌&&◌, Option, none, some,
  List, [], ◌∷◌, ◌++◌, map, take, if◌then◌else◌, is_some, contains, ◌==◌, text_key, option_key,
  pair_key, ltb, text_leb, sorted_by,
}
use benzene_python.Dict.{Dict, get, put}
use benzene_python.Json.{
  Json, null, boolean, integer, text, array, object, Items, nil, cons, items, Members, end, member,
  members, not_none,
}
use benzene_python.Results.Errors.{text_member}

abbrev pub classifications : List String
classifications =
    "exception" ∷ "validation" ∷ "config-wiring" ∷ "dependency" ∷ "contract-drift" ∷ "unclassified"
    ∷ []

abbrev pub max_exemplars : ℕ
max_exemplars = 5

abbrev pub max_issue_errors : ℕ
max_issue_errors = 10

abbrev pub max_pending_issue_errors : ℕ
max_pending_issue_errors = 100

-- `value or None`, and `value or ""`
abbrev pub or_none : Option String → Option String
or_none none = none
or_none (some s) = if s == "" then none else some s

abbrev pub or_empty : Option String → String
or_empty none = ""
or_empty (some s) = s

-- `exception_type or status`
abbrev pub or_else : Option String → String → String
or_else none s = s
or_else (some t) s = if t == "" then s else t

unfoldable pub classify : String → Option String → String
classify status exception_type =
    if contains status ("bad-request" ∷ "validation-error" ∷ [])
    then "validation"
    else if is_some (or_none exception_type)
    then "exception"
    else if contains status ("not-found" ∷ "unauthorized" ∷ "forbidden" ∷ "not-implemented" ∷ [])
        || status == ""
    then "config-wiring"
    else if contains status ("service-unavailable" ∷ "timeout" ∷ "too-many-requests" ∷ [])
    then "dependency"
    else if status == "unexpected-error"
    then "exception"
    else "unclassified"

-- `hashlib.sha256(raw.encode("utf-8")).digest()[:16].hex()` is the library's, and a parameter.
unfoldable pub issue_fingerprint :
    (String → String) → String → String → String → String → String → String
issue_fingerprint digest service topic version classification discriminator =
    digest (service ⊕ "|" ⊕ topic ⊕ "|" ⊕ version ⊕ "|" ⊕ classification ⊕ "|" ⊕ discriminator)

pub record IssueError : Type 0 where
  pub field : Option String
  pub code : Option String
  pub count : ℕ

-- the identity of an entry
abbrev pub Pair : Type 0
Pair = Option String × Option String

abbrev pub count_member : ℕ → Members
count_member n = member "count" (integer n) end

unfoldable pub to_payload : IssueError → Members
to_payload e = text_member "field" e.field (text_member "code" e.code (count_member e.count))

abbrev pub error_payloads : List IssueError → Items
error_payloads [] = nil
error_payloads (e ∷ es) = cons (object (to_payload e)) (error_payloads es)

-- `_issue_error_order`: the lexicographic order of the tuples. False comes before True.
abbrev pub member_leb : Option String → Option String → Bool → Bool
member_leb none none rest = rest
member_leb none (some t) rest = true
member_leb (some s) none rest = false
member_leb (some s) (some t) rest = if s == t then rest else text_leb s t

unfoldable pub issue_error_order : IssueError → IssueError → Bool
issue_error_order a b =
    if ltb b.count a.count
    then true
    else if ltb a.count b.count
    then false
    else member_leb a.field b.field (member_leb a.code b.code true)

abbrev pub key_of : IssueError → Pair
key_of e = (or_none e.field, or_none e.code)

-- `key == (None, None)`
abbrev pub says_nothing : Pair → Bool
says_nothing k = k == (none, none)

-- `counts.get(key, 0)`
abbrev pub amount : Option ℕ → ℕ
amount none = 0
amount (some n) = n

unfoldable pub tally : List IssueError → Dict Pair ℕ → Dict Pair ℕ
tally [] counts = counts
tally (e ∷ es) counts = tally es (
    if says_nothing (key_of e)
    then counts
    else put (key_of e) (amount (get (key_of e) counts) + e.count) counts)

abbrev pub to_entry : Pair × ℕ → IssueError
to_entry p = record { field = p.0.0; code = p.0.1; count = p.1 }

unfoldable pub merge_issue_errors : List IssueError → List IssueError → List IssueError
merge_issue_errors existing delta =
    take max_issue_errors
      (sorted_by issue_error_order (map to_entry (tally (existing ++ delta) [])))

-- `not isinstance(count, int) or isinstance(count, bool) or count <= 0`: a positive count, or none
abbrev pub positive_count : Option Json → Option ℕ
positive_count (some (integer n)) = if n == 0 then none else some n
positive_count _ = none

-- a member that is absent or a text; the outer `none` is a value that is neither
abbrev pub text_or_absent : Option Json → Option (Option String)
text_or_absent none = some none
text_or_absent (some null) = some none
text_or_absent (some (text s)) = some (or_none (some s))
text_or_absent (some v) = none

abbrev pub entry_of : Option ℕ → Option (Option String) → Option (Option String) → Option IssueError
entry_of (some n) (some f) (some c) =
    if says_nothing (f, c) then none else some (record { field = f; code = c; count = n })
entry_of _ _ _ = none

unfoldable pub decode_item : Json → Option IssueError
decode_item (object ms) =
    entry_of (positive_count (get "count" (members ms))) (text_or_absent (get "field" (members ms)))
      (text_or_absent (get "code" (members ms)))
decode_item v = none

abbrev pub kept : List (Option IssueError) → List IssueError
kept [] = []
kept (none ∷ os) = kept os
kept (some e ∷ os) = e ∷ kept os

unfoldable pub decode_issue_errors : Json → List IssueError
decode_issue_errors (array vs) = kept (map decode_item (items vs))
decode_issue_errors v = []
