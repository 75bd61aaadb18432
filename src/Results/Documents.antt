-- ===== src/Results/Documents.antt =====
-- A problem document read back by a client: what `problem_errors` and `problem_status` recover from
-- the payload of `ProblemDetails.to_payload`.
use benzene_python.Prelude.{
  String, false, if◌then◌else◌, Option, none, some, List, [], ◌∷◌, ◌==◌, ◌≡◌, ◌≢◌, refl, arith, All,
  text_key, same_refl, ◌∙◌,
}
use benzene_python.Dict.{get}
use benzene_python.Json.{Json, text, truthy, array, object, items, Members, member, members}
use benzene_python.Results.Status
use benzene_python.Results.Errors
use benzene_python.Results.Errors.{
  BenzeneError, mapping, detail_errors, text_member, coerce, error_item, decode_errors,
  problem_errors, problem_status,
}
use benzene_python.Results.Result.{ProblemDetails, error_items, errors_member, to_payload}

-- A reader of another key skips a member that may be left out.
get-text_member :
    (j k : String) (o : Option String) (rest : Members)
    → (k == j) ≡ false
    → get j (members (text_member k o rest)) ≡ get j (members rest)
unfolding get
get-text_member j k none rest h = refl
get-text_member j k (some v) rest h = rw h

get-text_member_self :
    (k : String) (o : Option String) (rest : Members)
    → get k (members rest) ≡ none
    → get k (members (text_member k o rest)) ≡ elim o [ none ↦ none | some v ↦ some (text v) ]
unfolding get
get-text_member_self k none rest h = h
get-text_member_self k (some v) rest h = rw (same_refl k)

found_errors :
    (d : ProblemDetails)
    → get "errors" (members (to_payload d)) ≡ get "errors" (members (errors_member d.errors))
unfolding to_payload get
found_errors d =
    get-text_member "errors" "type" d.type_uri _ refl
    ∙ get-text_member "errors" "title" d.title _ refl
    ∙ get-text_member "errors" "detail" d.detail _ refl
    ∙ get-text_member "errors" "instance" d.instance_uri _ refl

no_detail :
    (d : ProblemDetails) (es : List BenzeneError)
    → get "detail" (
        members (
          text_member "instance" d.instance_uri
            (member "benzeneStatus" (text d.benzene_status) (errors_member es))))
      ≡ none
unfolding get
no_detail d [] = get-text_member "detail" "instance" d.instance_uri _ refl
no_detail d (e ∷ es) = get-text_member "detail" "instance" d.instance_uri _ refl

found_detail :
    (d : ProblemDetails)
    → get "detail" (members (to_payload d)) ≡ elim d.detail [ none ↦ none | some v ↦ some (text v) ]
unfolding to_payload
found_detail d =
    get-text_member "detail" "type" d.type_uri _ refl
    ∙ get-text_member "detail" "title" d.title _ refl
    ∙ get-text_member_self "detail" d.detail _ (no_detail d d.errors)

found_status :
    (d : ProblemDetails)
    → get "benzeneStatus" (members (to_payload d)) ≡ some (text d.benzene_status)
unfolding to_payload get
found_status d =
    get-text_member "benzeneStatus" "type" d.type_uri _ refl
    ∙ get-text_member "benzeneStatus" "title" d.title _ refl
    ∙ get-text_member "benzeneStatus" "detail" d.detail _ refl
    ∙ get-text_member "benzeneStatus" "instance" d.instance_uri _ refl

-- What a reader makes of a document's detail and errors: the errors if there are any, else the
-- detail as one opaque message.
abbrev pub recovered : Option String → List BenzeneError → List BenzeneError
recovered none [] = []
recovered (some m) [] =
    if m == "" then [] else record { message = m; field = none; code = none } ∷ []
recovered detail (e ∷ es) = e ∷ es

-- What is assumed of Python's `str`: on a text it is the identity.
module _ (str : Json → String) (str-text : (s : String) → str (text s) ≡ s) where
  coerce-parts :
      (m : String) (f c : Option String)
      → let e : BenzeneError = record { message = m; field = f; code = c } in
        coerce str (mapping (members (Errors.to_payload e))) ≡ e
  unfolding coerce Errors.to_payload get
  coerce-parts m none none = ground (arith, str-text m)
  coerce-parts m none (some c) = ground (arith, str-text m, str-text c)
  coerce-parts m (some f) none = ground (arith, str-text m, str-text f)
  coerce-parts m (some f) (some c) = ground (arith, str-text m, str-text f, str-text c)

  decoded_item : (e : BenzeneError) → coerce str (error_item str (object (Errors.to_payload e))) ≡ e
  unfolding error_item
  decoded_item e = coerce-parts e.message e.field e.code

  pub decode_errors-error_items :
      (es : List BenzeneError)
      → All (λ e. e.message ≢ "") es
      → decode_errors str (items (error_items es)) ≡ es
  unfolding decode_errors
  decode_errors-error_items [] h = refl
  decode_errors-error_items (e ∷ es) h =
      rw (decoded_item e)
        (ground (arith, decode_errors-error_items es h.1, text_key.same_iff e.message "", h.0))

  found_list :
      (d : ProblemDetails) (es : List BenzeneError)
      → d.errors ≡ es
      → get "errors" (members (to_payload d)) ≡ get "errors" (members (errors_member es))
  found_list d es same = found_errors d ∙ rw same

  recovered_lem :
      (d : ProblemDetails) (o : Option String) (es : List BenzeneError)
      → d.detail ≡ o
      → d.errors ≡ es
      → All (λ e. e.message ≢ "") es
      → problem_errors str (members (to_payload d)) ≡ recovered o es
  unfolding problem_errors detail_errors truthy
  recovered_lem d none [] detail errors h =
      let listed : get "errors" (members (to_payload d)) ≡ none =
        found_list d [] errors ∙ (unfold get in refl) in
      let detailed : get "detail" (members (to_payload d)) ≡ none = found_detail d ∙ (rw detail) in
      ground arith
  recovered_lem d (some m) [] detail errors h =
      let listed : get "errors" (members (to_payload d)) ≡ none =
        found_list d [] errors ∙ (unfold get in refl) in
      let detailed : get "detail" (members (to_payload d)) ≡ some (text m) =
        found_detail d ∙ (rw detail) in
      ground (arith, str-text m)
  recovered_lem d o (e ∷ es) detail errors h =
      let listed : get "errors" (members (to_payload d)) ≡ some (array (error_items (e ∷ es))) =
        found_list d (e ∷ es) errors ∙ (unfold get in refl) in
      ground (arith, decode_errors-error_items (e ∷ es) h)

  -- A problem document that a peer emitted is read back, if each of its errors has a message and
  -- its status is a failure: a client takes from it the errors, in order, or where there are none
  -- its detail as one opaque message (no error, if that is missing or empty), and the status.
  pub problem_errors-to_payload :
      (d : ProblemDetails)
      → All (λ e. e.message ≢ "") d.errors
      → Status.is_successful d.benzene_status ≡ false
      → d.benzene_status ≢ ""
      → (problem_errors str (members (to_payload d)) ≡ recovered d.detail d.errors)
        × (problem_status (members (to_payload d)) ≡ some d.benzene_status)
  unfolding problem_status
  problem_errors-to_payload d h failure stated = (
    recovered_lem d d.detail d.errors refl refl h,
    ground (arith, found_status d, text_key.same_iff d.benzene_status ""),
  )
