-- ===== src/Results/Result.antt =====
-- The results of packages/benzene-results/benzene/results/result.py. A factory that may raise
-- `ValueError` returns an `Option`, and `none` is the raise; the exception's text is left out.
use benzene_python.Prelude.{
  String, Bool, false, not, ◌&&◌, Option, none, some, List, [], ◌∷◌, map, if◌then◌else◌, ◌==◌,
  text_key,
}
use benzene_python.Json.{Json, text, array, object, Items, nil, cons, Members, end, member}
use benzene_python.Results.Status
use benzene_python.Results.Errors
use benzene_python.Results.Errors.{BenzeneError, ErrorLike, coerce, text_member}

pub record ProblemDetails : Type 0 where
  pub benzene_status : String
  pub type_uri : Option String
  pub title : Option String
  pub detail : Option String
  pub instance_uri : Option String
  pub errors : List BenzeneError

abbrev pub error_items : List BenzeneError → Items
error_items [] = nil
error_items (e ∷ es) = cons (object (Errors.to_payload e)) (error_items es)

abbrev pub errors_member : List BenzeneError → Members
errors_member [] = end
errors_member (e ∷ es) = member "errors" (array (error_items (e ∷ es))) end

-- `ProblemDetails.to_payload`
unfoldable pub to_payload : ProblemDetails → Members
to_payload d = text_member "type" d.type_uri (
    text_member "title" d.title (
      text_member "detail" d.detail (
        text_member "instance" d.instance_uri
          (member "benzeneStatus" (text d.benzene_status) (errors_member d.errors)))))

pub record Result {ℓ} (A : Type ℓ) : Type ℓ where
  pub status : String
  pub payload : Option A
  pub errors : List BenzeneError
  pub problem_document : Option ProblemDetails
  pub successful : Option Bool

-- the guard of `set`: a vocabulary status with the other class stated
unfoldable pub contradicts : String → Option Bool → Bool
contradicts s none = false
contradicts s (some b) =
    Status.is_known s && not (if b then Status.is_successful s else not (Status.is_successful s))

module _ {ℓ} {A : Type ℓ} where
  -- the property `is_successful`
  unfoldable pub is_successful : Result A → Bool
  is_successful r = elim r.successful [ some b ↦ b | none ↦ Status.is_successful r.status ]

  -- the property `messages`
  unfoldable pub messages : Result A → List String
  messages r = map (λ (e : BenzeneError). e.message) r.errors

  -- `Result(status, payload)`
  abbrev pub plain : String → Option A → Result A
  plain s p = record {
    status = s;
    payload = p;
    errors = [];
    problem_document = none;
    successful = none;
  }

  abbrev pub ok : Option A → Result A
  ok p = plain Status.ok p

  abbrev pub created : Option A → Result A
  created p = plain Status.created p

  abbrev pub accepted : Option A → Result A
  accepted p = plain Status.accepted p

  abbrev pub updated : Option A → Result A
  updated p = plain Status.updated p

  abbrev pub deleted : Option A → Result A
  deleted p = plain Status.deleted p

  abbrev pub ignored : Option A → Result A
  ignored p = plain Status.ignored p

  unfoldable pub set : String → Option A → Option Bool → Option (Result A)
  unfolding contradicts
  set s p b =
      if contradicts s b
      then none
      else some
          (record { status = s; payload = p; errors = []; problem_document = none; successful = b })

  unfoldable pub problem : ProblemDetails → Option (Result A)
  problem d =
      if d.benzene_status == ""
      then none
      else if Status.is_successful d.benzene_status
      then none
      else some (record {
        status = d.benzene_status;
        payload = none;
        errors = d.errors;
        problem_document = some d;
        successful = some false;
      })

  -- `Result.failure` of errors that are structured already, as `__post_init__` leaves them
  abbrev pub failed : String → List BenzeneError → Result A
  failed s es = record {
    status = s;
    payload = none;
    errors = es;
    problem_document = none;
    successful = none;
  }

  -- a failure factory given one plain message
  abbrev pub failed_with : String → String → Result A
  failed_with s message = failed s (record { message = message; field = none; code = none } ∷ [])

module _ {ℓ} (str : Json → String) {A : Type ℓ} where
  unfoldable pub failure : String → List ErrorLike → Result A
  unfolding coerce
  failure s es = failed s (map (coerce str) es)

  -- `result_with_errors`, the decoder's entrance
  unfoldable pub result_with_errors : String → List ErrorLike → Result A
  unfolding coerce
  result_with_errors s es = failed s (map (coerce str) es)
