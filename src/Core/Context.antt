-- ===== src/Core/Context.antt =====
-- packages/benzene-core/benzene/core/context.py, without the resolution scope. A payload is of a
-- type of its own.
use benzene_python.Prelude.{String, Bool, false, Option, none, [], ◌∷◌, text_key}
use benzene_python.Dict.{Dict, put}
use benzene_python.Results.Result.{Result}

pub record Context {ℓ} (P : Type ℓ) : Type ℓ where
  pub topic : String
  pub version : String
  pub request : P
  pub headers : Dict String String
  pub result : Option (Result P)
  pub ignore_unmatched_topic : Bool

-- Python's `str.lower` is the built-in's, and a parameter.
module _ (lower : String → String) where
  -- `{k.lower(): v for k, v in headers.items()}`
  unfoldable pub lower_from : Dict String String → Dict String String → Dict String String
  lower_from out [] = out
  lower_from out ((k, v) ∷ headers) = lower_from (put (lower k) v out) headers

  -- `__init__`
  unfoldable pub make_context {ℓ} :
      {P : Type ℓ} → String → P → Dict String String → String → Context P
  unfolding lower_from
  make_context topic request headers version = record {
    topic = topic;
    version = version;
    request = request;
    headers = lower_from [] headers;
    result = none;
    ignore_unmatched_topic = false;
  }

-- The world of a message: its context, and what else the handlers and the pipeline change.
abbrev pub World {ℓ} : Type ℓ → Type ℓ → Type ℓ
World P W = Context P × W
