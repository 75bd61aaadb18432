-- ===== src/Auth.antt =====
-- packages/benzene-auth/benzene/auth: basic.py and principal.py. `base64.b64decode` followed by the
-- UTF-8 decoding, and `str.lower`, are parameters; a principal's claims are of a type of their own.
-- The private attribute of the context that holds the principal stands beside the context.
pub mod Guarded
mod Tests
use Prim.Native.String.{[], ◌∷◌, ◌++◌ as str_append}
use benzene_python.Prelude.{
  String, Bool, true, false, not, ◌||◌, Option, none, some, if◌then◌else◌, ◌==◌, text_key, ◌⊕◌,
}
use benzene_python.Effect.{Outcome, returned, raised, Coroutine}
use benzene_python.Dict.{Dict, get}
use benzene_python.Results.Status
use benzene_python.Results.Result
use benzene_python.Core.Context.{Context, World}
use benzene_python.Core.Pipeline.{Next, Middleware}

pub record Principal {ℓ} (C : Type ℓ) : Type ℓ where
  pub name : String
  pub claims : C

-- a verifier's answer: a bool, a principal, or `None`
pub data Verdict {ℓ} (C : Type ℓ) : Type ℓ where
  answered : Bool → Verdict C
  identified : Principal C → Verdict C
  unanswered : Verdict C

-- `text.partition(separator)`, of a separator of one character; `none` where it is not in the text
unfoldable pub partition : String → String → Option (String × String)
partition separator [] = none
partition separator (c ∷ s) =
    let rest = partition separator s in
    if (c ∷ []) == separator
    then some ("", s)
    else elim rest [ none ↦ none | some (before, behind) ↦ some (c ∷ before, behind) ]

module _ (lower : String → String) (b64_text : String → Option String) where
  -- the credentials of the text after the scheme
  unfoldable pub decode_credentials : Option String → Option (String × String)
  decode_credentials none = none
  decode_credentials (some decoded) = partition ":" decoded

  unfoldable pub read_scheme : Option (String × String) → Option (String × String)
  read_scheme none = none
  read_scheme (some (scheme, encoded)) =
      if not (lower scheme == "basic") || encoded == ""
      then none
      else decode_credentials (b64_text encoded)

  -- `_read_basic_credentials`
  unfoldable pub read_basic_credentials : Option String → Option (String × String)
  read_basic_credentials none = none
  read_basic_credentials (some header) = read_scheme (partition " " header)

module _ {ℓ} {C : Type ℓ} (no_claims : C) where
  -- `_resolve_principal`
  unfoldable pub resolve_principal : Verdict C → String → Option (Principal C)
  resolve_principal (identified p) username = some p
  resolve_principal (answered b) username =
      if b then some (record { name = username; claims = no_claims }) else none
  resolve_principal unanswered username = none

-- What a request changes: the principal of its context, and its world.
abbrev pub State {ℓ} : (C P W : Type ℓ) → Type ℓ
State C P W = Option (Principal C) × World P W

module _ {ℓ} {C P W : Type ℓ} (lower : String → String) (b64_text : String → Option String)
    (no_claims : C) (verify : String → String → Coroutine W (Verdict C)) (realm : String) where
  -- `context.result = Result.unauthorized(...)`, without the rest of the pipeline
  unfoldable pub reject : String → State C P W → Outcome (Unit {ℓ}) × State C P W
  reject message (q, (c, w)) = (
    returned tt,
    (q, (record c { result = some (Result.failed_with Status.unauthorized message) }, w)),
  )

  unfoldable pub admit : Option (Principal C) → Next (State C P W) → Next (State C P W)
  admit none next s = reject ("invalid credentials (" ⊕ realm ⊕ ")") s
  admit (some p) next (q, s) = next (some p, s)

  unfoldable pub verified :
      String
      → Outcome (Verdict C) × W
      → Next (State C P W)
      → Option (Principal C)
      → Context P
      → Outcome (Unit {ℓ}) × State C P W
  verified username (raised x, w) next q c = (raised x, (q, (c, w)))
  verified username (returned verdict, w) next q c =
      admit (resolve_principal no_claims verdict username) next (q, (c, w))

  unfoldable pub check_credentials :
      Option (String × String) → Next (State C P W) → Next (State C P W)
  check_credentials none next s =
      reject ("missing or malformed Basic credentials (" ⊕ realm ⊕ ")") s
  check_credentials (some (username, password)) next (q, (c, w)) =
      verified username (verify username password w) next q c

  unfoldable pub basic_auth_interception : Middleware (State C P W)
  basic_auth_interception next (q, (c, w)) =
      check_credentials (read_basic_credentials lower b64_text (get "authorization" c.headers)) next
        (q, (c, w))
