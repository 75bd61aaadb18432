-- ===== src/Core/Envelope/Trips.antt =====
-- What a result is after it has travelled in a response envelope.
use benzene_python.Prelude.{
  String, Bool, true, false, ◌≡◌, ◌≢◌, refl, ◌∙◌, ap, Option, none, some, List, [], ◌∷◌, arith,
  ◌==◌, text_key, All, join,
}
use benzene_python.Effect.{Outcome, returned, raised}
use benzene_python.Dict.{get}
use benzene_python.Json.{
  boolean, integer, negative, real, Json, null, text, object, array, Members, member, members,
  not_none, truthy,
}
use benzene_python.Results.Status
use benzene_python.Results.Errors.{BenzeneError, problem_errors, detail_errors}
use benzene_python.Results.Problems.{problem_type, problem_title}
use benzene_python.Results.Result.{Result, is_successful, messages, errors_member}
use benzene_python.Results.Documents.{decode_errors-error_items}
use benzene_python.Core.Envelope.{
  text_or, rebuilt, Response, type_members, error_payload, response_of, body_of, success_body,
  encode_result, encode_response, stated, successful_from, looks_like_problem, decode_problem,
  decode_parsed, decode_body, decode_response,
}

-- A reader of another key skips the type and the title.
get-type_members :
    (j : String) (uri title : Option String) (rest : Members)
    → ("type" == j) ≡ false
    → ("title" == j) ≡ false
    → get j (members (type_members uri title rest)) ≡ get j (members rest)
unfolding get type_members
get-type_members j none title rest h h' = refl
get-type_members j (some u) title rest h h' = rw (h, h')

module _ {ℓ} {P : Type ℓ} where
  found_in_payload :
      (j : String) (r : Result P)
      → r.problem_document ≡ none
      → ("type" == j) ≡ false
      → ("title" == j) ≡ false
      → get j (members (error_payload r))
        ≡ get j (
            members (
              member "detail"
                (text (join (messages r)))
                (member "benzeneStatus" (text r.status) (errors_member r.errors))))
  unfolding error_payload
  found_in_payload j r derived h h' =
      rw derived (get-type_members j (problem_type r.status) (problem_title r.status) _ h h')

  payload_looks :
      (r : Result P)
      → r.problem_document ≡ none
      → looks_like_problem (members (error_payload r)) ≡ true
  unfolding looks_like_problem get
  payload_looks r derived =
      let found = found_in_payload "benzeneStatus" r derived refl refl in ground arith

-- A result rebuilt with the flag `stated` reports the success that was stated.
pub is_successful-stated :
    (b : Bool) (status : String) (payload : Option Json) (errors : List BenzeneError)
    → is_successful (record {
      status = status;
      payload = payload;
      errors = errors;
      problem_document = none;
      successful = stated b status;
    })
      ≡ b
unfolding is_successful stated
is_successful-stated true status payload errors = ground arith
is_successful-stated false status payload errors = ground arith

module _ {ℓ} {P : Type ℓ} (str : Json → String) (str-text : (s : String) → str (text s) ≡ s) where
  payload_errors :
      (r : Result P) (es : List BenzeneError)
      → r.errors ≡ es
      → r.problem_document ≡ none
      → All (λ e. e.message ≢ "") es
      → problem_errors str (members (error_payload r)) ≡ es
  unfolding problem_errors detail_errors truthy messages get
  payload_errors r [] same derived h =
      let listed = found_in_payload "errors" r derived refl refl in
      let detailed : get "detail" (members (error_payload r)) ≡ some (text "") =
        found_in_payload "detail" r derived refl refl ∙ (rw same) in
      ground arith
  payload_errors r (e ∷ es) same derived h =
      let listed = found_in_payload "errors" r derived refl refl in
      let decoded = decode_errors-error_items str str-text (e ∷ es) h in ground arith

module _ {ℓ} {P : Type ℓ} (str : Json → String) (str-text : (s : String) → str (text s) ≡ s)
    (repr : String → String) (to_jsonable : P → Outcome Json) (dumps : Json → Outcome String)
    (loads : String → Option Json) where
  abbrev pub received : Outcome Response → Outcome (Result Json)
  received (returned o) = returned (decode_response str repr loads o)
  received (raised x) = raised x

  -- encoded and decoded
  abbrev pub travel : Result P → Outcome (Result Json)
  travel r = received (encode_response to_jsonable dumps (some r))

  -- a failure in an envelope with its document
  failure_carried :
      (r : Result P) (s : String)
      → is_successful r ≡ false
      → r.status ≢ ""
      → r.problem_document ≡ none
      → All (λ e. e.message ≢ "") r.errors
      → s ≢ ""
      → loads s ≡ some (object (error_payload r))
      → let out = decode_response str repr loads (response_of r s) in
        (out.status ≡ r.status)
        × (out.errors ≡ r.errors)
        × (out.payload ≡ none)
        × (is_successful out ≡ false)
  unfolding decode_response decode_body decode_parsed decode_problem response_of successful_from
  failure_carried r s failed some_status derived h written read =
      let errors = payload_errors str str-text r r.errors refl derived h in
      let looks = payload_looks r derived in
      let same = is_successful-stated false r.status none r.errors in
      ground (arith, text_key.same_iff r.status "", text_key.same_iff s "")

  -- A failure with a status and without an authored problem document survives the envelope, if
  -- every error has a message, the document that is written for it is not an empty text and reads
  -- back as it was, and `str` of a text is the text: the result that is decoded is a failure with
  -- the same status, the same errors in the same order, and no payload.
  pub failure_travels :
      (r : Result P) (s : String)
      → is_successful r ≡ false
      → r.status ≢ ""
      → r.problem_document ≡ none
      → All (λ e. e.message ≢ "") r.errors
      → dumps (object (error_payload r)) ≡ returned s
      → s ≢ ""
      → loads s ≡ some (object (error_payload r))
      → (out : Result Json) × (travel r ≡ returned out)
        × (out.status ≡ r.status)
        × (out.errors ≡ r.errors)
        × (out.payload ≡ none)
        × (is_successful out ≡ false)
  unfolding encode_response encode_result body_of
  failure_travels r s failed some_status derived h dumped written read =
      let (status, errors, payload, success) =
        failure_carried r s failed some_status derived h written read in
      (_, rw (failed, dumped) refl, status, errors, payload, success)

  abbrev pub parsed_back : Outcome Json → Option Json
  parsed_back (returned v) = not_none (some v)
  parsed_back (raised x) = none

  -- what a payload is after JSON: `None` where it was missing or is written as `null`
  abbrev pub carried : Option P → Option Json
  carried none = none
  carried (some p) = parsed_back (to_jsonable p)

  -- A payload has a JSON value, whose text is not empty and reads back as it was.
  abbrev pub Carries : P → Type 0
  Carries p =
      (v : Json) × (s : String) × (to_jsonable p ≡ returned v)
      × (dumps v ≡ returned s)
      × (s ≢ "")
      × (loads s ≡ some v)

  -- a success is not read as a problem document
  decode_success :
      (o : Response) (v : Json)
      → successful_from o ≡ true
      → decode_parsed str repr loads o v ≡ (
          let status = text_or o.status_code Status.unexpected_error in
          rebuilt status (not_none (some v)) (stated true status))
  unfolding decode_parsed
  decode_success o null h = rw h
  decode_success o (boolean b) h = rw h
  decode_success o (integer n) h = rw h
  decode_success o (negative n) h = rw h
  decode_success o (real z s) h = rw h
  decode_success o (text s) h = rw h
  decode_success o (array vs) h = rw h
  decode_success o (object ms) h = rw h

  success_empty :
      (r : Result P)
      → is_successful r ≡ true
      → r.status ≢ ""
      → decode_response str repr loads (response_of r "")
        ≡ rebuilt r.status none (stated true r.status)
  unfolding decode_response response_of successful_from
  success_empty r passed some_status = ground (arith, text_key.same_iff r.status "")

  success_filled :
      (r : Result P) (v : Json) (s : String)
      → is_successful r ≡ true
      → r.status ≢ ""
      → s ≢ ""
      → loads s ≡ some v
      → decode_response str repr loads (response_of r s)
        ≡ rebuilt r.status (not_none (some v)) (stated true r.status)
  unfolding decode_response decode_body response_of successful_from
  success_filled r v s passed some_status written read = ground (
    arith,
    text_key.same_iff r.status "",
    text_key.same_iff s "",
    decode_success (response_of r s) v,
  )

  body_of-success :
      (r : Result P) (o : Option P)
      → r.payload ≡ o
      → is_successful r ≡ true
      → body_of to_jsonable dumps r ≡ success_body to_jsonable dumps o
  unfolding body_of
  body_of-success r o same passed = rw (passed, same) refl

  success_carried :
      (r : Result P) (o : Option P)
      → r.payload ≡ o
      → is_successful r ≡ true
      → r.status ≢ ""
      → ((p : P) → o ≡ some p → Carries p)
      → travel r ≡ returned (rebuilt r.status (carried o) (stated true r.status))
  unfolding encode_response encode_result
  success_carried r none same passed some_status travels =
      rw (body_of-success r none same passed) (ap returned (success_empty r passed some_status))
  success_carried r (some p) same passed some_status travels =
      let (v, s, made, dumped, written, read) = travels p refl in
      rw (body_of-success r (some p) same passed, made, dumped)
        (ap returned (success_filled r v s passed some_status written read))

  -- A success with a status survives the envelope, if its payload has a JSON value whose text is
  -- not empty and reads back as it was: the result that is decoded is a success with the same
  -- status, also where the status is not of the vocabulary, no errors, and the payload's JSON
  -- value, where `null` reads as no payload.
  pub success_travels :
      (r : Result P)
      → is_successful r ≡ true
      → r.status ≢ ""
      → ((p : P) → r.payload ≡ some p → Carries p)
      → (out : Result Json) × (travel r ≡ returned out)
        × (out.status ≡ r.status)
        × (out.errors ≡ [])
        × (out.payload ≡ carried r.payload)
        × (is_successful out ≡ true)
  success_travels r passed some_status travels =
      let same = success_carried r r.payload refl passed some_status travels in
      (_, same, refl, refl, refl, is_successful-stated true r.status (carried r.payload) [])
