-- ===== src/Auth/Guarded.antt =====
-- Which requests get past Basic authentication.
use benzene_python.Prelude.{
  String, true, false, ◌≡◌, refl, ◌⊎◌, inl, inr, Option, none, some, text_key,
}
use benzene_python.Effect.{Outcome, returned, raised, Coroutine}
use benzene_python.Dict.{get}
use benzene_python.Results.Result.{Result}
use benzene_python.Core.Context.{Context}
use benzene_python.Core.Pipeline.{Next}
use benzene_python.Auth.{
  Principal, Verdict, answered, identified, unanswered, State, read_basic_credentials,
  resolve_principal, reject, admit, verified, check_credentials, basic_auth_interception,
}

-- The principal that a verdict accepts the user as: one with the user's name where it is `True`, or
-- the one that it is itself. `False` and `None` accept nobody.
abbrev pub AcceptedAs : {C : Type 0} → C → Verdict C → String → Principal C → Type 0
AcceptedAs no_claims (answered true) username p = p ≡ record { name = username; claims = no_claims }
AcceptedAs no_claims (answered false) username p = ⊥
AcceptedAs no_claims (identified q) username p = p ≡ q
AcceptedAs no_claims unanswered username p = ⊥

abbrev pub Refused : {C : Type 0} → Verdict C → Type 0
Refused (answered true) = ⊥
Refused (answered false) = Unit
Refused (identified q) = ⊥
Refused unanswered = Unit

-- The request was answered unauthorized, in the world `v` and with nothing else changed.
abbrev pub Turned :
    {C P W : Type 0}
    → Option (Principal C)
    → Context P
    → W
    → Outcome (Unit {0}) × State C P W
    → Type 0
Turned {P = P} q c v out =
    (r : Result P) × (out ≡ (returned tt, (q, (record c { result = some r }, v))))
    × (r.status ≡ "unauthorized")

module _ {C P W : Type 0} (lower : String → String) (b64_text : String → Option String)
    (no_claims : C) (verify : String → String → Coroutine W (Verdict C)) (realm : String) where
  abbrev pub guard : Next (State C P W) → Next (State C P W)
  guard = basic_auth_interception lower b64_text no_claims verify realm

  -- What comes of a request with these credentials: they are missing, and it is turned away; or the
  -- verifier is asked, and it goes on as the principal that is accepted, is turned away, or ends
  -- with the verifier's exception.
  abbrev pub Judged :
      String
      → Outcome (Verdict C) × W
      → Next (State C P W)
      → Option (Principal C)
      → Context P
      → Outcome (Unit {0}) × State C P W
      → Type 0
  Judged username (returned verdict, v) next q c out =
      ((p : Principal C) × AcceptedAs no_claims verdict username p × (out ≡ next (some p, (c, v))))
      ⊎ (Refused verdict × Turned q c v out)
  Judged username (raised x, v) next q c out = out ≡ (raised x, (q, (c, v)))

  abbrev pub Guarded :
      Option (String × String)
      → Next (State C P W)
      → Option (Principal C)
      → Context P
      → W
      → Outcome (Unit {0}) × State C P W
      → Type 0
  Guarded none next q c w out = Turned q c w out
  Guarded (some (username, password)) next q c w out =
      Judged username (verify username password w) next q c out

  Judged-verified :
      (username : String) (next : Next (State C P W)) (q : Option (Principal C)) (c : Context P)
      (o : Outcome (Verdict C) × W)
      → Judged username o next q c
          (verified lower b64_text no_claims verify realm username o next q c)
  unfolding verified admit reject resolve_principal
  Judged-verified username next q c (raised x, v) = refl
  Judged-verified username next q c (returned (answered true), v) = inl (_, refl, refl)
  Judged-verified username next q c (returned (answered false), v) = inr (tt, (_, refl, refl))
  Judged-verified username next q c (returned (identified p), v) = inl (p, refl, refl)
  Judged-verified username next q c (returned unanswered, v) = inr (tt, (_, refl, refl))

  Guarded-check_credentials :
      (credentials : Option (String × String)) (next : Next (State C P W))
      (q : Option (Principal C)) (c : Context P) (w : W)
      → Guarded credentials next q c w
          (check_credentials lower b64_text no_claims verify realm credentials next (q, (c, w)))
  unfolding check_credentials reject
  Guarded-check_credentials none next q c w = (_, refl, refl)
  Guarded-check_credentials (some (username, password)) next q c w =
      Judged-verified username next q c (verify username password w)

  pub basic_auth_guards :
      (next : Next (State C P W)) (q : Option (Principal C)) (c : Context P) (w : W)
      → Guarded
          (read_basic_credentials lower b64_text (get "authorization" c.headers))
          next
          q
          c
          w
          (guard next (q, (c, w)))
  unfolding basic_auth_interception
  basic_auth_guards next q c w =
      Guarded-check_credentials
        (read_basic_credentials lower b64_text (get "authorization" c.headers)) next q c w
