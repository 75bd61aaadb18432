-- ===== src/Core/Application/Answers.antt =====
-- What a caller of the entry point gets.
use mathlib.Core.Path.{subst}
use benzene_python.Prelude.{
  String, Bool, true, false, ◌≡◌, refl, sym, ap, ◌∙◌, is_some, ◌⊎◌, inl, inr, Option, none, some,
  List, [], contains, ◌∷◌, Bool-cases, arith, if◌then◌else◌, ◌==◌, text_key,
}
use benzene_python.Effect.{Fault, error, Outcome, returned, raised, cancelled, pure}
use benzene_python.Effect.Keeps.{Outcome-cases}
use benzene_python.Json.{Json, boolean}
use benzene_python.Results.Result.{Result, is_successful}
use benzene_python.Core.Context.{World, Context}
use benzene_python.Core.Envelope.{
  Response, text_or, body_of, success_body, around, response_of, encode_response, encode_result,
}
use benzene_python.Core.Pipeline.{Next, Middleware, handle, register}
use benzene_python.Core.Pipeline.Order.{handle-around}
use benzene_python.Core.Registry.{HandlerDefinition, Registry}
use benzene_python.Core.Router.{Handler, message_router}
use benzene_python.Core.Router.Answers.{Answered, router_answers}
use benzene_python.Core.Application.{
  Request, is_caught, context_of, parse_body, echo, echoed, respond, run_parsed, handle_request,
}

-- A response of such a result: its status, and its success stated.
abbrev pub Reports : (Result Json → Type 0) → Response → Type 0
Reports Of o =
    (result : Result Json) × Of result
    × (o.status_code ≡ some result.status)
    × (o.is_successful ≡ some (boolean (is_successful result)))

-- The exception is one of writing JSON, or one of the parser that is not a ValueError or a
-- TypeError.
abbrev pub Escapes :
    (to_jsonable : Json → Outcome Json) (dumps : Json → Outcome String)
    → Outcome Json
    → Fault
    → Type 0
Escapes to_jsonable dumps parsed x =
    (((payload : Json) × (to_jsonable payload ≡ raised x)) ⊎ ((v : Json) × (dumps v ≡ raised x)))
    ⊎ ((kind : String) × (message : String) × (x ≡ error kind message)
        × (parsed ≡ raised x)
        × (contains kind
              ("ValueError" ∷ "JSONDecodeError" ∷ "UnicodeDecodeError" ∷ "TypeError" ∷ [])
            ≡ false))

-- Cancelled, or a response of such a result, or an exception that escapes.
abbrev pub Responded :
    (to_jsonable : Json → Outcome Json) (dumps : Json → Outcome String)
    → Outcome Json
    → (Result Json → Type 0)
    → Outcome Response
    → Type 0
Responded to_jsonable dumps parsed Of o =
    (o ≡ raised cancelled)
    ⊎ (((response : Response) × (o ≡ returned response) × Reports Of response)
        ⊎ ((x : Fault) × (o ≡ raised x) × Escapes to_jsonable dumps parsed x))

-- The result that a response is of: the one that the pipeline leaves on the parsed body, or a
-- bad-request where the body could not be parsed.
abbrev pub Expected :
    {W : Type 0} → (Json → Outcome (Unit {0}) × World Json W) → Outcome Json → Result Json → Type 0
Expected served (returned v) r = (served v).1.0.result ≡ some r
Expected served (raised x) r = r.status ≡ "bad-request"

returned_injective : (a b : Response) → ◌≡◌ {A = Outcome Response} (returned a) (returned b) → a ≡ b
returned_injective a b h = cc

raised_injective : (x y : Fault) → ◌≡◌ {A = Outcome String} (raised x) (raised y) → x ≡ y
raised_injective x y h = cc

Reports-if :
    (Of : Result Json → Type 0) (b : Bool) (o o' : Response)
    → Reports Of o
    → Reports Of o'
    → Reports Of (if b then o else o')
Reports-if Of true o o' h h' = h
Reports-if Of false o o' h h' = h'

Reports-echo :
    (Of : Result Json → Type 0) (version_header version : String) (o : Response)
    → Reports Of o
    → Reports Of (echo version_header version o)
unfolding echo
Reports-echo Of version_header version o (r, is, h, h') =
    Reports-if Of (version == "") o _ (r, is, h, h') (r, is, h, h')

module _ (to_jsonable : Json → Outcome Json) (dumps : Json → Outcome String) where
  Unwritten : Fault → Type 0
  Unwritten x =
      ((payload : Json) × (to_jsonable payload ≡ raised x)) ⊎ ((v : Json) × (dumps v ≡ raised x))

  success_body-Unwritten :
      (o : Option Json) (x : Fault) → success_body to_jsonable dumps o ≡ raised x → Unwritten x
  unfolding Unwritten
  success_body-Unwritten none x h = absurd (cc)
  success_body-Unwritten (some p) x h = elim (Outcome-cases (to_jsonable p)) [
    | inl (v, made) ↦ inr (v, rw made at h)
    | inr (y, failed) ↦ inl (p, failed ∙ ap raised (raised_injective y x (rw failed at h)))
  ]

  body_of-Unwritten :
      (r : Result Json) (x : Fault) → body_of to_jsonable dumps r ≡ raised x → Unwritten x
  unfolding body_of
  body_of-Unwritten r x h = elim (Bool-cases (is_successful r)) [
    | inl passed ↦ success_body-Unwritten r.payload x (rw passed at h)
    | inr failed ↦ unfold Unwritten in (inr (_, rw failed at h))
  ]

  module _ (parsed : Outcome Json) (Of : Result Json → Type 0) where
    Responded-around :
        (r : Result Json) (body : Outcome String)
        → Of r
        → body_of to_jsonable dumps r ≡ body
        → Responded to_jsonable dumps parsed Of (around to_jsonable dumps r body)
    unfolding response_of Unwritten
    Responded-around r (returned body) is same = inr (inl (_, refl, (r, is, refl, refl)))
    Responded-around r (raised x) is same = inr (inr (x, refl, inl (body_of-Unwritten r x same)))

    Responded-echoed :
        (version_header version : String) (o : Outcome Response)
        → Responded to_jsonable dumps parsed Of o
        → Responded to_jsonable dumps parsed Of (echoed version_header version o)
    Responded-echoed version_header version (raised x) h = h
    Responded-echoed version_header version (returned response) (inl stopped) = absurd (cc)
    Responded-echoed version_header version (returned response) (inr (inl (o, same, reports))) =
        inr (
          inl (
            _,
            refl,
            Reports-echo Of version_header version response
                (subst (Reports Of) (sym (returned_injective response o same)) reports),
          ))
    Responded-echoed version_header version (returned response) (inr (inr (x, same, escapes))) =
        absurd (cc)

    Responded-encode :
        (r : Result Json)
        → Of r
        → Responded to_jsonable dumps parsed Of (encode_response to_jsonable dumps (some r))
    unfolding encode_response encode_result
    Responded-encode r is = Responded-around r _ is refl

    -- the response to what is there as a result
    Responded-encode_there :
        (o : Option (Result Json))
        → is_some o ≡ true
        → ((r : Result Json) → o ≡ some r → Of r)
        → Responded to_jsonable dumps parsed Of (encode_response to_jsonable dumps o)
    Responded-encode_there none there is = absurd (cc)
    Responded-encode_there (some r) there is = Responded-encode r (is r refl)

module _ {W : Type 0} (lower : String → String) (loads : String → Outcome Json)
    (to_jsonable : Json → Outcome Json) (dumps : Json → Outcome String) where
  Responded-respond :
      (version_header version : String) (parsed : Outcome Json) (Of : Result Json → Type 0)
      (o : Outcome (Unit {0}) × World Json W)
      → Answered o
      → ((r : Result Json) → o.1.0.result ≡ some r → Of r)
      → Responded to_jsonable dumps parsed Of
          (respond lower loads to_jsonable dumps version_header version o).0
  unfolding respond
  Responded-respond version_header version parsed Of (raised x, (c, w)) (inl stopped) is =
      inl (ground arith)
  Responded-respond version_header version parsed Of (raised x, (c, w)) (inr there) is = absurd (cc)
  Responded-respond version_header version parsed Of (returned _, (c, w)) (inl stopped) is =
      absurd (cc)
  Responded-respond version_header version parsed Of (returned _, (c, w)) (inr there) is =
      Responded-echoed to_jsonable dumps parsed Of version_header version _
        (Responded-encode_there to_jsonable dumps parsed Of c.result there.1 is)

  Responded-run_parsed :
      (pipeline : List (Middleware (World Json W))) (version_header version : String)
      (parsed : Outcome Json) (make : Json → Context Json) (w : W)
      → ((s : World Json W) → Answered (handle pipeline s))
      → Responded to_jsonable dumps parsed
          (Expected (λ v. handle pipeline (make v, w)) parsed)
          (run_parsed lower loads to_jsonable dumps pipeline version_header version parsed make w).0
  unfolding run_parsed
  Responded-run_parsed pipeline version_header version (raised cancelled) make w answers = inl refl
  Responded-run_parsed pipeline version_header version (raised (error kind message)) make w
        answers =
      elim (Bool-cases (is_caught kind)) [
        | inl caught ↦
            rw caught (Responded-encode to_jsonable dumps (raised (error kind message)) _ _ refl)
        | inr other ↦
            rw other (inr (inr (error kind message, refl, inr (kind, message, refl, refl, other))))
      ]
  Responded-run_parsed pipeline version_header version (returned parsed) make w answers =
      Responded-respond version_header version (returned parsed) _
        (handle pipeline (make parsed, w)) (answers (make parsed, w)) (λ r same. same)

  pub handle_request_returns :
      {T : Type 0} (repr : String → String) (type_name : Option T → String)
      (to_request : Option T → Json → String ⊎ Json) (registry : Registry T (Handler Json W))
      (selector : Registry T (Handler Json W)
        → String
        → String
        → Option (HandlerDefinition T (Handler Json W)))
      (version_header : String) (request : Request) (ignore_unmatched_topic : Bool) (w : W)
      → let router = message_router repr type_name to_request registry selector in
        let parsed = parse_body loads (text_or request.body "") in
        Responded to_jsonable dumps parsed
          (Expected
            (λ v.
              handle
                (register [] router)
                (context_of lower version_header request ignore_unmatched_topic v, w))
            parsed)
          (handle_request lower loads to_jsonable dumps
            (register [] router)
            version_header
            request
            ignore_unmatched_topic
            w).0
  unfolding handle_request
  handle_request_returns repr type_name to_request registry selector version_header request ignore
        w =
      let router = message_router repr type_name to_request registry selector in
      Responded-run_parsed (register [] router) version_header _ _ _ w (λ s.
        subst (λ (n : Next (World Json W)). Answered (n s)) (sym (handle-around [] router).1)
          (router_answers repr type_name to_request registry selector (pure tt) (pure tt) s.0
            s.1).0)
