-- ===== src/Cache/Replay.antt =====
-- What cache-aside promises over the in-memory cache.
use benzene_python.Prelude.{
  ℕ, Bool, String, true, false, ◌≡◌, ◌≢◌, refl, ◌∙◌, List, [], ◌∷◌, All, ◌==◌, Option, none, some,
  arith, text_key, same_refl, inl, inr, Option-cases, Bool-cases,
}
use benzene_python.Effect.{Outcome, returned, raised, Coroutine}
use benzene_python.Dict.{get, put}
use benzene_python.Dict.Laws.{get-put, get-put_self, get-remove}
use benzene_python.Cache.{
  Entries, expired, expiry, fetch_entry, store_entry, delete_entry, in_memory, keep, resolve,
  get_or_load,
}

module _ {ℓ} {V : Type ℓ} where
  -- A key answers with what the entries hold for it as long as that has not expired, and the
  -- entries stay as they are.
  fetch_held :
      (key : String) (kept : Option V × Option ℕ) (e : Entries V) (later : ℕ)
      → get key e ≡ some kept
      → expired later kept.1 ≡ false
      → fetch_entry later key e ≡ (kept.0, e)
  unfolding fetch_entry
  fetch_held key kept e later there fresh = ground arith

  -- A lookup of another key leaves what a key holds.
  get-fetch_entry :
      (key k : String) (e : Entries V) (now : ℕ)
      → (k == key) ≡ false
      → get key (fetch_entry now k e).1 ≡ get key e
  unfolding fetch_entry
  get-fetch_entry key k e now other = elim (Option-cases (get k e)) [
    | inl missing ↦ ground arith
    | inr ((v, expires_at), found) ↦ elim (Bool-cases (expired now expires_at)) [
      | inl gone ↦ ground (arith, get-remove k key e)
      | inr live ↦ ground arith
    ]
  ]

  -- Nothing is found again, once it was not found.
  fetch_absent :
      (now later : ℕ) (key : String) (e : Entries V)
      → (fetch_entry now key e).0 ≡ none
      → (fetch_entry later key (fetch_entry now key e).1).0 ≡ none
  unfolding fetch_entry
  fetch_absent now later key e h = elim (Option-cases (get key e)) [
    | inl missing ↦ ground arith
    | inr ((r, expires_at), found) ↦ elim (Bool-cases (expired now expires_at)) [
      | inl gone ↦ ground (arith, get-remove key key e, same_refl key)
      | inr live ↦ ground arith
    ]
  ]

  -- A `None` is not found, whether or not it has expired.
  fetch-store_none :
      (now later : ℕ) (key : String) (ttl : Option ℕ) (e : Entries V)
      → (fetch_entry later key (store_entry now key none ttl e)).0 ≡ none
  unfolding fetch_entry store_entry
  fetch-store_none now later key ttl e = elim (Bool-cases (expired later (expiry ttl now))) [
    | inl gone ↦ ground (arith, get-put_self key (none, expiry ttl now) e)
    | inr live ↦ ground (arith, get-put_self key (none, expiry ttl now) e)
  ]

-- A use of the cache: a load through it, a write or a removal.
pub data Use {ℓ} (V W : Type ℓ) : Type ℓ where
  loads : String → Coroutine W (Option V) → Option ℕ → W → Use V W
  writes : String → Option V → Option ℕ → ℕ → Use V W
  deletes : String → Use V W

module _ {ℓ} {V W : Type ℓ} (clock : W → ℕ) where
  abbrev pub cached_load :
      String
      → Coroutine W (Option V)
      → Option ℕ
      → Entries V × W
      → Outcome (Option V) × (Entries V × W)
  cached_load = get_or_load in_memory clock

  kept_by_keep :
      (key k : String) (ttl : Option ℕ) (o : Outcome (Option V) × W) (e : Entries V)
      → (k == key) ≡ false
      → get key ((keep in_memory clock k ttl o e).1.0) ≡ get key e
  unfolding keep store_entry
  kept_by_keep key k ttl (raised x, w) e other = refl
  kept_by_keep key k ttl (returned loaded, w) e other =
      ground (arith, get-put k key (loaded, expiry ttl (clock w)) e)

  kept_by_resolve :
      (key k : String) (loader : Coroutine W (Option V)) (ttl : Option ℕ)
      (found : Option V × Entries V) (w : W)
      → (k == key) ≡ false
      → get key ((resolve in_memory clock k loader ttl found w).1.0) ≡ get key found.1
  unfolding resolve
  kept_by_resolve key k loader ttl (none, e) w other = kept_by_keep key k ttl (loader w) e other
  kept_by_resolve key k loader ttl (some v, e) w other = refl

  unfoldable pub apply : Use V W → Entries V → Entries V
  apply (loads key loader ttl w) e = (cached_load key loader ttl (e, w)).1.0
  apply (writes key value ttl now) e = store_entry now key value ttl e
  apply (deletes key) e = delete_entry key e

  unfoldable pub apply_all : List (Use V W) → Entries V → Entries V
  apply_all [] e = e
  apply_all (u ∷ rest) e = apply_all rest (apply u e)

  -- A use of another key, or a load of this one before the value that it holds expires.
  abbrev pub Leaves : String → Option ℕ → Use V W → Type 0
  Leaves key expires_at (loads k loader ttl w) = k ≡ key → expired (clock w) expires_at ≡ false
  Leaves key expires_at (writes k value ttl now) = k ≢ key
  Leaves key expires_at (deletes k) = k ≢ key

  kept_by_found :
      (key : String) (kept : Option V × Option ℕ) (e : Entries V) (loader : Coroutine W (Option V))
      (ttl : Option ℕ) (w : W) (value : V)
      → get key e ≡ some kept
      → kept.0 ≡ some value
      → expired (clock w) kept.1 ≡ false
      → get key ((cached_load key loader ttl (e, w)).1.0) ≡ some kept
  unfolding get_or_load resolve
  kept_by_found key kept e loader ttl w value there full fresh =
      ground (arith, fetch_held key kept e (clock w) there fresh)

  kept_by_use :
      (key : String) (value : V) (expires_at : Option ℕ) (u : Use V W) (e : Entries V)
      → get key e ≡ some (some value, expires_at)
      → Leaves key expires_at u
      → get key (apply u e) ≡ some (some value, expires_at)
  unfolding apply store_entry delete_entry get_or_load
  kept_by_use key value expires_at (loads k loader ttl w) e there fresh =
      elim (Bool-cases (k == key)) [
        | inl same ↦
            let here = (text_key.same_iff k key).0 same in
            rw here (
              kept_by_found key (some value, expires_at) e loader ttl w value there refl
                (fresh here))
        | inr other ↦
            kept_by_resolve key k loader ttl (fetch_entry (clock w) k e) w other
            ∙ get-fetch_entry key k e (clock w) other
            ∙ there
      ]
  kept_by_use key value expires_at (writes k v ttl now) e there apart =
      ground (arith, get-put k key (v, expiry ttl now) e, text_key.same_iff k key)
  kept_by_use key value expires_at (deletes k) e there apart =
      ground (arith, get-remove k key e, text_key.same_iff k key)

  kept_by_uses :
      (key : String) (value : V) (expires_at : Option ℕ) (uses : List (Use V W)) (e : Entries V)
      → get key e ≡ some (some value, expires_at)
      → All (Leaves key expires_at) uses
      → get key (apply_all uses e) ≡ some (some value, expires_at)
  unfolding apply_all
  kept_by_uses key value expires_at [] e there all = there
  kept_by_uses key value expires_at (u ∷ rest) e there all =
      kept_by_uses key value expires_at rest _ (kept_by_use key value expires_at u e there all.0)
        all.1

  -- A miss runs the loader and keeps its value: after any uses of the cache in between that do not
  -- write or remove the key, and load it only before the entry expires, a call for the key before
  -- that time gets the value whatever its own loader would do, which is not run, and leaves the
  -- cache as it is.
  pub get_or_load_replays :
      (key : String) (loader loader' : Coroutine W (Option V)) (ttl ttl' : Option ℕ) (e : Entries V)
      (w v w' : W) (value : V) (between : List (Use V W))
      → (fetch_entry (clock w) key e).0 ≡ none
      → loader w ≡ (returned (some value), v)
      → All (Leaves key (expiry ttl (clock v))) between
      → expired (clock w') (expiry ttl (clock v)) ≡ false
      → let e' = apply_all between (cached_load key loader ttl (e, w)).1.0 in
        ((cached_load key loader ttl (e, w)).0 ≡ returned (some value))
        × (cached_load key loader' ttl' (e', w') ≡ (returned (some value), (e', w')))
  unfolding get_or_load resolve keep store_entry
  get_or_load_replays key loader loader' ttl ttl' e w v w' value between missed loaded leaves
        fresh =
      let kept : Option V × Option ℕ = (some value, expiry ttl (clock v)) in
      let entries = put key kept (fetch_entry (clock w) key e).1 in
      let first : cached_load key loader ttl (e, w) ≡ (returned (some value), (entries, v)) =
        ground arith in
      let there =
        kept_by_uses key value (expiry ttl (clock v)) between entries (get-put_self key kept _)
          leaves in
      rw first (refl, ground (arith, fetch_held key kept _ (clock w') there fresh))

  -- whether a loader came to a value
  abbrev pub yields : Outcome (Option V) → Bool
  yields (returned (some value)) = true
  yields (returned none) = false
  yields (raised x) = false

  forgotten :
      (key : String) (ttl : Option ℕ) (o : Outcome (Option V) × W) (e : Entries V) (later : ℕ)
      → yields (o.0) ≡ false
      → (fetch_entry later key e).0 ≡ none
      → (fetch_entry later key (keep in_memory clock key ttl o e).1.0).0 ≡ none
  unfolding keep
  forgotten key ttl (raised x, w) e later failed missed = missed
  forgotten key ttl (returned none, w) e later failed missed =
      fetch-store_none (clock w) later key ttl e
  forgotten key ttl (returned (some value), w) e later failed missed = absurd (cc)

  resolved :
      (key : String) (loader : Coroutine W (Option V)) (ttl : Option ℕ)
      (found : Option V × Entries V) (w : W) (later : ℕ)
      → yields ((loader w).0) ≡ false
      → found.0 ≡ none
      → (fetch_entry later key found.1).0 ≡ none
      → (fetch_entry later key (resolve in_memory clock key loader ttl found w).1.0).0 ≡ none
  unfolding resolve
  resolved key loader ttl (none, e) w later failed missed absent =
      forgotten key ttl (loader w) e later failed absent
  resolved key loader ttl (some v, e) w later failed missed absent = absurd (cc)

  -- A loader that fails or that yields `None` is not remembered: after it, the key is not found at
  -- any time.
  pub get_or_load_forgets :
      (key : String) (loader : Coroutine W (Option V)) (ttl : Option ℕ) (e : Entries V) (w : W)
      (later : ℕ)
      → yields ((loader w).0) ≡ false
      → (fetch_entry (clock w) key e).0 ≡ none
      → (fetch_entry later key (cached_load key loader ttl (e, w)).1.0).0 ≡ none
  unfolding get_or_load
  get_or_load_forgets key loader ttl e w later failed missed =
      resolved key loader ttl (fetch_entry (clock w) key e) w later failed missed
        (fetch_absent (clock w) later key e missed)
