-- ===== src/Core/Outbound.antt =====
-- packages/benzene-core/benzene/core/outbound.py: decorators of a message sender. A sender is a
-- function of the topic, the message and the headers; `str.lower` and the source of new ids are
-- parameters.
pub mod Attempts
use benzene_python.Prelude.{
  ℕ, zero, suc, ◌-◌, ◌+◌, max, String, Bool, true, false, not, ◌||◌, Option, none, some, List, [],
  ◌∷◌, map, any, contains, if◌then◌else◌, ◌==◌, text_key,
}
use benzene_python.Effect.{Outcome, returned, raised, Coroutine, ◌>>=◌, ◌>>◌, pure}
use benzene_python.Dict.{Dict, put}
use benzene_python.Results.Status
use benzene_python.Results.Result
use benzene_python.Results.Result.{Result}

-- `DEFAULT_RETRYABLE`
abbrev pub default_retryable : List String
default_retryable = Status.service_unavailable ∷ Status.timeout ∷ Status.too_many_requests ∷ []

-- `clients.MessageSender`
abbrev pub Sender {ℓ} : (M W A : Type ℓ) → Type ℓ
Sender M W A = String → M → Option (Dict String String) → Coroutine W (Result A)

-- a success, or a failure that a repeat does not mend
unfoldable pub is_final {ℓ} : {A : Type ℓ} → List String → Result A → Bool
is_final retry_on r = Result.is_successful r || not (contains r.status retry_on)

unfoldable pub back_off {ℓ} :
    {W : Type ℓ} → Option (ℕ → Coroutine W (Unit {ℓ})) → ℕ → Coroutine W (Unit {ℓ})
back_off none attempt = pure tt
back_off (some hook) attempt = hook attempt

module _ {ℓ} {W A : Type ℓ} (retry_on : List String) (backoff : Option (ℕ → Coroutine W (Unit {ℓ})))
    (send : Coroutine W (Result A)) where
  -- the loop, of `left` further attempts from number `attempt` on
  unfoldable pub retry : ℕ → ℕ → Result A → Coroutine W (Result A)
  retry zero attempt result = pure result
  retry (suc left) attempt result =
      let again = back_off backoff attempt >> (send >>= retry left (suc attempt)) in
      if is_final retry_on result then pure result else again

module _ {ℓ} {M W A : Type ℓ} (inner : Sender M W A) (attempts : ℕ) (retry_on : List String)
    (backoff : Option (ℕ → Coroutine W (Unit {ℓ}))) where
  -- `RetryingMessageSender`, where `attempts` is at least one
  unfoldable pub retrying : Sender M W A
  retrying topic message headers =
      inner topic message headers
      >>= retry retry_on backoff (inner topic message headers) (max 1 attempts - 1) 1

abbrev pub given_headers : Option (Dict String String) → Dict String String
given_headers none = []
given_headers (some headers) = headers

module _ {ℓ} {M W A : Type ℓ} (lower : String → String) (inner : Sender M W A) (header : String)
    (new_id : W → String × W) where
  unfoldable pub has_header : Dict String String → Bool
  has_header out = any (λ (p : String × String). lower p.0 == lower header) out

  -- `CorrelationIdMessageSender`
  unfoldable pub correlating : Sender M W A
  correlating topic message headers w =
      let out = given_headers headers in
      if has_header out
      then inner topic message (some out) w
      else let (id, w') = new_id w in inner topic message (some (put header id out)) w'
