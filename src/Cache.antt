-- ===== src/Cache.antt =====
-- packages/benzene-cache/benzene/cache: cache.py, memory.py and aside.py. A value is `none` for
-- Python's `None`, which is also the answer for a key that is not there. A call of a cache does not
-- fail.
pub mod Replay
mod Tests
use benzene_python.Prelude.{
  ℕ, ◌+◌, String, Bool, false, Option, none, some, leb, if◌then◌else◌, text_key,
}
use benzene_python.Effect.{Outcome, returned, raised, Coroutine}
use benzene_python.Dict.{Dict, get, put, remove}

-- `Cache`, over its entries; the times are readings of its clock
pub record Cache {ℓ} (E V : Type ℓ) : Type ℓ where
  pub fetch : ℕ → String → E → Option V × E
  pub store : ℕ → String → Option V → Option ℕ → E → E
  pub delete : String → E → E

-- `InMemoryCache._entries`: a value and when it expires
abbrev pub Entries {ℓ} : Type ℓ → Type ℓ
Entries V = Dict String (Option V × Option ℕ)

abbrev pub expired : ℕ → Option ℕ → Bool
expired now none = false
expired now (some expires_at) = leb expires_at now

abbrev pub expiry : Option ℕ → ℕ → Option ℕ
expiry none now = none
expiry (some ttl) now = some (now + ttl)

module _ {ℓ} {V : Type ℓ} where
  unfoldable pub fetch_entry : ℕ → String → Entries V → Option V × Entries V
  fetch_entry now key entries = elim (get key entries) [
    | none ↦ (none, entries)
    | some (value, expires_at) ↦
        if expired now expires_at then (none, remove key entries) else (value, entries)
  ]

  unfoldable pub store_entry : ℕ → String → Option V → Option ℕ → Entries V → Entries V
  store_entry now key value ttl entries = put key (value, expiry ttl now) entries

  unfoldable pub delete_entry : String → Entries V → Entries V
  delete_entry key entries = remove key entries

  abbrev pub in_memory : Cache (Entries V) V
  in_memory = record { fetch = fetch_entry; store = store_entry; delete = delete_entry }

module _ {ℓ} {E V W : Type ℓ} (cache : Cache E V) (clock : W → ℕ) where
  -- after the loader
  unfoldable pub keep :
      String → Option ℕ → Outcome (Option V) × W → E → Outcome (Option V) × (E × W)
  keep key ttl (raised x, w) e = (raised x, (e, w))
  keep key ttl (returned loaded, w) e =
      (returned loaded, (cache.store (clock w) key loaded ttl e, w))

  unfoldable pub resolve :
      String → Coroutine W (Option V) → Option ℕ → Option V × E → W → Outcome (Option V) × (E × W)
  resolve key loader ttl (some cached, e) w = (returned (some cached), (e, w))
  resolve key loader ttl (none, e) w = keep key ttl (loader w) e

  -- The loader does not reach the cache.
  unfoldable pub get_or_load :
      String → Coroutine W (Option V) → Option ℕ → E × W → Outcome (Option V) × (E × W)
  get_or_load key loader ttl (e, w) = resolve key loader ttl (cache.fetch (clock w) key e) w

  -- `CacheAside.get_or_load`
  unfoldable pub get_or_load_bound :
      Option ℕ → String → Coroutine W (Option V) → Option ℕ → E × W → Outcome (Option V) × (E × W)
  get_or_load_bound default_ttl key loader none s = get_or_load key loader default_ttl s
  get_or_load_bound default_ttl key loader (some ttl) s = get_or_load key loader (some ttl) s
