-- ===== src/Core/Outbound/Attempts.antt =====
-- How often a message is sent, and what comes of it.
use benzene_python.Prelude.{
  ℕ, zero, suc, ◌+◌, ◌-◌, ◌≤◌, max, String, Bool, true, false, ◌≡◌, refl, ◌⊎◌, inl, inr, Option,
  some, List, [], ◌∷◌, any, arith, if◌then◌else◌, ◌==◌, text_key, Bool-cases,
}
use benzene_python.Effect.{Outcome, returned, raised, Coroutine, after, ◌>>=◌, pure}
use benzene_python.Dict.{Dict, get, put}
use benzene_python.Dict.Laws.{get-put}
use benzene_python.Results.Result.{Result}
use benzene_python.Core.Outbound.{
  Sender, is_final, back_off, retry, retrying, given_headers, has_header, correlating,
}

module _ {ℓ} {W A : Type ℓ} (retry_on : List String) (sent : W → ℕ) where
  -- From the world `w`, at least `k` and at most `n` messages were sent, and exactly `n` where the
  -- result that came back is still one to retry.
  abbrev pub Ended : W → ℕ → ℕ → Outcome (Result A) × W → Type 0
  Ended w k n (raised x, w') = (sent w + k ≤ sent w') × (sent w' ≤ sent w + n)
  Ended w k n (returned r, w') =
      (sent w + k ≤ sent w')
      × (sent w' ≤ sent w + n)
      × ((is_final retry_on r ≡ true) ⊎ (sent w' ≡ sent w + n))

module _ {ℓ} {W A : Type ℓ} (retry_on : List String) (backoff : Option (ℕ → Coroutine W (Unit {ℓ})))
    (send : Coroutine W (Result A)) (sent : W → ℕ)
    (counts : (w : W) → sent ((send w).1) ≡ sent w + 1)
    (quiet : (n : ℕ) (w : W) → sent ((back_off backoff n w).1) ≡ sent w) where
  Ended-widen :
      (w w' : W) (j k n m : ℕ) (o : Outcome (Result A) × W)
      → sent w' + n ≡ sent w + m
      → sent w + k ≤ sent w' + j
      → Ended retry_on sent w' j n o
      → Ended retry_on sent w k m o
  Ended-widen w w' j k n m (raised x, w'') same low (h, h') = (omega arith, omega arith)
  Ended-widen w w' j k n m (returned r, w'') same low (h, h', inl final) =
      (omega arith, omega arith, inl final)
  Ended-widen w w' j k n m (returned r, w'') same low (h, h', inr all) =
      (omega arith, omega arith, inr (omega arith))

  Ended-if :
      (w : W) (n : ℕ) (b : Bool) (o o' : Coroutine W (Result A))
      → (b ≡ true → Ended retry_on sent w 0 n (o w))
      → Ended retry_on sent w 0 n (o' w)
      → Ended retry_on sent w 0 n ((if b then o else o') w)
  Ended-if w n true o o' h h' = h refl
  Ended-if w n false o o' h h' = h'

  -- one send, and what follows it
  Ended-sent :
      (left : ℕ) (next : Result A → Coroutine W (Result A)) (w w₁ : W) (o : Outcome (Result A) × W)
      → ((r : Result A) (v : W) → Ended retry_on sent v 0 left (next r v))
      → sent w₁ ≡ sent w
      → sent (o.1) ≡ sent w₁ + 1
      → Ended retry_on sent w 1 (suc left) (after o next)
  Ended-sent left next w w₁ (raised x, w') rest same h = (omega arith, omega arith)
  Ended-sent left next w w₁ (returned r, w') rest same h =
      Ended-widen w w' 0 1 left (suc left) (next r w') (omega arith) (omega arith) (rest r w')

  -- a wait before it
  Ended-waited :
      (left : ℕ) (next : Result A → Coroutine W (Result A)) (w : W) (o : Outcome (Unit {ℓ}) × W)
      → ((r : Result A) (v : W) → Ended retry_on sent v 0 left (next r v))
      → sent (o.1) ≡ sent w
      → Ended retry_on sent w 0 (suc left) (after o (λ _. send >>= next))
  Ended-waited left next w (raised x, w₁) rest h = (omega arith, omega arith)
  Ended-waited left next w (returned _, w₁) rest h =
      Ended-widen w w 1 0 (suc left) (suc left) _ refl (omega arith)
        (Ended-sent left next w w₁ (send w₁) rest h (counts w₁))

  Ended-retry :
      (left attempt : ℕ) (r : Result A) (w : W)
      → Ended retry_on sent w 0 left (retry retry_on backoff send left attempt r w)
  unfolding retry
  Ended-retry zero attempt r w = (omega arith, omega arith, inr (omega arith))
  Ended-retry (suc left) attempt r w =
      Ended-if w (suc left) (is_final retry_on r) (pure r) _
        (λ final. (omega arith, omega arith, inl final))
        (Ended-waited left (retry retry_on backoff send left (suc attempt)) w
          (back_off backoff attempt w) (Ended-retry left (suc attempt)) (quiet attempt w))

module _ {ℓ} {M W A : Type ℓ} (inner : Sender M W A) (attempts : ℕ) (retry_on : List String)
    (backoff : Option (ℕ → Coroutine W (Unit {ℓ}))) (sent : W → ℕ) where
  pub retrying_sends :
      (topic : String) (message : M) (headers : Option (Dict String String)) (w : W)
      → ((v : W) → sent ((inner topic message headers v).1) ≡ sent v + 1)
      → ((n : ℕ) (v : W) → sent ((back_off backoff n v).1) ≡ sent v)
      → Ended retry_on sent w 1
          (max 1 attempts)
          (retrying inner attempts retry_on backoff topic message headers w)
  unfolding retrying
  retrying_sends topic message headers w counts quiet =
      let send = inner topic message headers in
      Ended-widen retry_on backoff send sent counts quiet w w 1 1 (suc (max 1 attempts - 1))
        (max 1 attempts) _ (omega arith) (omega arith)
        (Ended-sent retry_on backoff send sent counts quiet (max 1 attempts - 1) _ w w (send w)
          (Ended-retry retry_on backoff send sent counts quiet (max 1 attempts - 1) 1) refl
          (counts w))

module _ {ℓ} {M W A : Type ℓ} (lower : String → String) (inner : Sender M W A) (header : String)
    (new_id : W → String × W) where
  -- the test of a name, as it stands in `any`
  abbrev names : String × String → Bool
  names p = lower p.0 == lower header

  found_named :
      (k : String) (v : String) (d : Dict String String)
      → get k d ≡ some v
      → lower k ≡ lower header
      → any names d ≡ true
  unfolding get
  found_named k v [] found same = absurd (cc)
  found_named k v ((j, u) ∷ d) found same =
      ground (
        arith,
        found_named k v d,
        text_key.same_iff j k,
        text_key.same_iff (lower j) (lower header),
      )

  named_put :
      (k v : String) (d : Dict String String)
      → lower k ≡ lower header
      → any names (put k v d) ≡ true
  unfolding put
  named_put k v [] same = ground (arith, text_key.same_iff (lower k) (lower header))
  named_put k v ((j, u) ∷ d) same =
      ground
        (arith, named_put k v d, text_key.same_iff j k, text_key.same_iff (lower j) (lower header))

  -- Every message goes out with a correlation header, under the configured name or another spelling
  -- of it, and with all the headers that the caller gave, an own correlation header as it was.
  pub correlating_headers :
      (topic : String) (message : M) (headers : Option (Dict String String)) (w : W) (k v : String)
      → get k (given_headers headers) ≡ some v
      → (out : Dict String String) × (w' : W) × (correlating lower inner header new_id topic message
            headers w
          ≡ inner topic message (some out) w')
        × (any names out ≡ true)
        × (get k out ≡ some v)
  unfolding correlating has_header
  correlating_headers topic message headers w k v found =
      elim (Bool-cases (any names (given_headers headers))) [
        | inl there ↦ (given_headers headers, w, rw there refl, there, found)
        | inr missing ↦ (
          put header ((new_id w).0) (given_headers headers),
          (new_id w).1,
          rw missing refl,
          named_put header ((new_id w).0) (given_headers headers) refl,
          ground (
            arith,
            found_named k v (given_headers headers),
            get-put header k ((new_id w).0) (given_headers headers),
            text_key.same_iff header k,
          ),
        )
      ]
