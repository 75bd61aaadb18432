-- ===== src/Resilience/Idempotency.antt =====
-- packages/benzene-resilience/benzene/resilience/idempotency.py. Times are whole ticks of the
-- clock.
pub mod Replay
use benzene_python.Prelude.{
  ℕ, ◌+◌, String, Bool, true, false, Option, none, some, List, [], ◌∷◌, if◌then◌else◌, leb, ◌==◌,
  text_key,
}
use benzene_python.Effect.{Outcome, returned, raised, Coroutine}
use benzene_python.Dict.{Dict, get, put, remove}
use benzene_python.Results.Result
use benzene_python.Results.Result.{Result}
use benzene_python.Core.Context.{World, Context}
use benzene_python.Core.Pipeline.{Next}

abbrev pub default_key_headers : List String
default_key_headers = "idempotency-key" ∷ "message-id" ∷ []

-- The protocol `IdempotencyStore`, each call at a clock reading.
pub record IdempotencyStore {ℓ} (E R : Type ℓ) : Type ℓ where
  pub load : ℕ → String → E → Option R × E
  pub save : ℕ → String → R → E → E

-- `InMemoryIdempotencyStore`: the entries, each with the time at which it expires
abbrev pub Entries {ℓ} : Type ℓ → Type ℓ
Entries R = Dict String (R × Option ℕ)

abbrev pub expired : ℕ → Option ℕ → Bool
expired now none = false
expired now (some expires_at) = leb expires_at now

abbrev pub expiry : Option ℕ → ℕ → Option ℕ
expiry none now = none
expiry (some ttl) now = some (now + ttl)

module _ {ℓ} {R : Type ℓ} where
  unfoldable pub load_entry : ℕ → String → Entries R → Option R × Entries R
  load_entry now key entries = elim (get key entries) [
    | none ↦ (none, entries)
    | some (result, expires_at) ↦
        if expired now expires_at then (none, remove key entries) else (some result, entries)
  ]

  unfoldable pub save_entry : Option ℕ → ℕ → String → R → Entries R → Entries R
  save_entry ttl now key result entries = put key (result, expiry ttl now) entries

  abbrev pub in_memory : Option ℕ → IdempotencyStore (Entries R) R
  in_memory ttl = record { load = load_entry; save = save_entry ttl }

-- `_key_of`, for the built-in `str.lower`
unfoldable pub key_of : (String → String) → Dict String String → List String → Option String
key_of lower headers [] = none
key_of lower headers (name ∷ candidates) = elim (get (lower name) headers) [
  | none ↦ key_of lower headers candidates
  | some value ↦ if value == "" then key_of lower headers candidates else some value
]

module _ {ℓ} {E P W : Type ℓ} (store : IdempotencyStore E (Result P)) (lower : String → String)
    (key_headers : List String) (should_remember : Result P → Bool) (clock : W → ℕ) where
  -- after `await next()`: what is worth remembering goes to the store
  unfoldable pub remember :
      String → Outcome (Unit {ℓ}) × World P W → E → Outcome (Unit {ℓ}) × (E × World P W)
  remember key (raised x, s) e = (raised x, (e, s))
  remember key (returned _, (c, w)) e = elim c.result [
    | none ↦ (returned tt, (e, (c, w)))
    | some result ↦
        if should_remember result
        then (returned tt, (store.save (clock w) key result e, (c, w)))
        else (returned tt, (e, (c, w)))
  ]

  unfoldable pub recall :
      String
      → Option (Result P) × E
      → Next (World P W)
      → World P W
      → Outcome (Unit {ℓ}) × (E × World P W)
  unfolding remember
  recall key (some remembered, e) next (c, w) =
      (returned tt, (e, (record c { result = some remembered }, w)))
  recall key (none, e) next s = remember key (next s) e

  -- The middleware. What it wraps does not reach the store.
  unfoldable pub idempotency :
      Next (World P W) → E × World P W → Outcome (Unit {ℓ}) × (E × World P W)
  unfolding recall
  idempotency next (e, (c, w)) = elim (key_of lower c.headers key_headers) [
    | none ↦ let (o, s) = next (c, w) in (o, (e, s))
    | some key ↦ recall key (store.load (clock w) key e) next (c, w)
  ]
