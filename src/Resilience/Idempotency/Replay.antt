-- ===== src/Resilience/Idempotency/Replay.antt =====
-- What the middleware promises over the in-memory store: a repeat is answered without the handler,
-- and nothing but a result worth remembering is ever stored.
use benzene_python.Prelude.{
  ℕ, String, Bool, true, false, ◌≡◌, refl, Option, none, some, List, [], ◌∷◌, All, ap, ◌∙◌, ◌==◌,
  arith, text_key, same_refl, inl, inr, Bool-cases, Option-cases,
}
use benzene_python.Effect.{Outcome, returned, raised}
use benzene_python.Dict.{get, put}
use benzene_python.Dict.Laws.{get-put, get-put_self, get-remove}
use benzene_python.Results.Result.{Result}
use benzene_python.Core.Context.{World, Context}
use benzene_python.Core.Pipeline.{Next}
use benzene_python.Resilience.Idempotency.{
  Entries, expired, load_entry, expiry, save_entry, in_memory, key_of, remember, recall,
  idempotency,
}

module _ {R : Type 0} where
  -- A key answers with what the entries hold for it as long as that has not expired, and the
  -- entries stay as they are.
  load_held :
      (key : String) (held : R × Option ℕ) (e : Entries R) (later : ℕ)
      → get key e ≡ some held
      → expired later held.1 ≡ false
      → load_entry later key e ≡ (some held.0, e)
  unfolding load_entry
  load_held key held e later there fresh = ground arith

  -- A lookup or a write of another key leaves what a key holds.
  get-load_entry :
      (key k : String) (e : Entries R) (now : ℕ)
      → (k == key) ≡ false
      → get key (load_entry now k e).1 ≡ get key e
  unfolding load_entry
  get-load_entry key k e now other = elim (Option-cases (get k e)) [
    | inl missing ↦ ground arith
    | inr ((r, expires_at), found) ↦ elim (Bool-cases (expired now expires_at)) [
      | inl gone ↦ ground (arith, get-remove k key e)
      | inr live ↦ ground arith
    ]
  ]

  -- A lookup that found nothing leaves entries in which there is nothing to find, then or later.
  load_absent :
      (now later : ℕ) (key : String) (e : Entries R)
      → (load_entry now key e).0 ≡ none
      → (load_entry later key (load_entry now key e).1).0 ≡ none
  unfolding load_entry
  load_absent now later key e h = elim (Option-cases (get key e)) [
    | inl missing ↦ ground arith
    | inr ((r, expires_at), found) ↦ elim (Bool-cases (expired now expires_at)) [
      | inl gone ↦ ground (arith, get-remove key key e, same_refl key)
      | inr live ↦ absurd (ground arith)
    ]
  ]

module _ {P W : Type 0} (lower : String → String) (key_headers : List String)
    (should_remember : Result P → Bool) (clock : W → ℕ) (ttl : Option ℕ) where
  abbrev pub middleware :
      Next (World P W)
      → Entries (Result P) × World P W
      → Outcome (Unit {0}) × (Entries (Result P) × World P W)
  middleware = idempotency (in_memory ttl) lower key_headers should_remember clock

  abbrev pub key_in : Context P → Option String
  key_in c = key_of lower c.headers key_headers

  kept_by_remember :
      (key k : String) (o : Outcome (Unit {0})) (c : Context P) (w : W) (e : Entries (Result P))
      → (k == key) ≡ false
      → get key
          ((remember (in_memory ttl) lower key_headers should_remember clock k (o, (c, w)) e).1.0)
        ≡ get key e
  unfolding remember save_entry
  kept_by_remember key k (raised x) c w e other = refl
  kept_by_remember key k (returned _) c w e other = elim (Option-cases c.result) [
    | inl missing ↦ rw missing refl
    | inr (r, there) ↦ ground (arith, get-put k key (r, expiry ttl (clock w)) e)
  ]

  kept_by_recall :
      (key k : String) (held : Result P × Option ℕ) (next : Next (World P W))
      (e : Entries (Result P)) (c : Context P) (w : W)
      → get key e ≡ some held
      → (k ≡ key → expired (clock w) held.1 ≡ false)
      → get key (
          (recall
            (in_memory ttl)
            lower
            key_headers
            should_remember
            clock
            k
            (load_entry (clock w) k e)
            next
            (c, w)).1.0)
        ≡ some held
  unfolding recall
  kept_by_recall key k held next e c w there fresh = elim (Bool-cases (k == key)) [
    | inl same ↦
        let here = (text_key.same_iff k key).0 same in
        rw (here, load_held key held e (clock w) there (fresh here)) there
    | inr other ↦
        let kept = get-load_entry key k e (clock w) other ∙ there in
        elim (Option-cases ((load_entry (clock w) k e).0)) [
          | inl missing ↦ ground (
            arith,
            kept,
            kept_by_remember key k (next (c, w)).0 (next (c, w)).1.0 (next (c, w)).1.1
                (load_entry (clock w) k e).1 other,
          )
          | inr (r, found) ↦ ground (arith, kept)
        ]
  ]

  -- What the entries hold for a key outlasts a delivery with another key, at any time, and one with
  -- that key before the entry expires.
  kept_by_delivery :
      (key : String) (held : Result P × Option ℕ) (next : Next (World P W)) (e : Entries (Result P))
      (c : Context P) (w : W)
      → get key e ≡ some held
      → (key_in c ≡ some key → expired (clock w) held.1 ≡ false)
      → get key ((middleware next (e, (c, w))).1.0) ≡ some held
  unfolding idempotency
  kept_by_delivery key held next e c w there fresh = elim (Option-cases (key_in c)) [
    | inl missing ↦ ground arith
    | inr (k, keyed) ↦ ground (
      arith,
      kept_by_recall key k held next e c w there (λ (same : k ≡ key). fresh (keyed ∙ ap some same)),
    )
  ]

  -- The entries after these deliveries, in their order.
  unfoldable pub deliver :
      List (Next (World P W) × World P W) → Entries (Result P) → Entries (Result P)
  deliver [] e = e
  deliver ((next, s) ∷ rest) e = deliver rest (middleware next (e, s)).1.0

  -- A delivery of another key, or one that comes before this time of expiry.
  abbrev pub Before : String → Option ℕ → Next (World P W) × World P W → Type 0
  Before key expires_at (next, (c, w)) = key_in c ≡ some key → expired (clock w) expires_at ≡ false

  kept_by_deliveries :
      (key : String) (held : Result P × Option ℕ) (between : List (Next (World P W) × World P W))
      (e : Entries (Result P))
      → get key e ≡ some held
      → All (Before key held.1) between
      → get key (deliver between e) ≡ some held
  unfolding deliver
  kept_by_deliveries key held [] e there before = there
  kept_by_deliveries key held ((next, (c, w)) ∷ rest) e there before =
      kept_by_deliveries key held rest _ (kept_by_delivery key held next e c w there before.0)
        before.1

  -- A delivery that the handler answered with a result worth remembering is answered once: after
  -- any deliveries in between, whatever their keys and handlers, of which those with the same key
  -- come before the entry expires, a delivery with that key before it expires gets the first result
  -- whatever its own handler would do, which is not run, and changes nothing but its result.
  pub idempotency_replays :
      (key : String) (r : Result P) (next next' : Next (World P W)) (e : Entries (Result P))
      (c d c' : Context P) (w v w' : W) (between : List (Next (World P W) × World P W))
      → key_in c ≡ some key
      → (load_entry (clock w) key e).0 ≡ none
      → next (c, w) ≡ (returned tt, (d, v))
      → d.result ≡ some r
      → should_remember r ≡ true
      → All (Before key (expiry ttl (clock v))) between
      → key_in c' ≡ some key
      → expired (clock w') (expiry ttl (clock v)) ≡ false
      → let e' = deliver between (middleware next (e, (c, w))).1.0 in
        ((middleware next (e, (c, w))).1.1 ≡ (d, v))
        × (middleware next' (e', (c', w'))
            ≡ (returned tt, (e', (record c' { result = some r }, w'))))
  unfolding idempotency remember save_entry
  idempotency_replays key r next next' e c d c' w v w' between keyed absent ran gave worth before
        keyed' fresh =
      let entries = (load_entry (clock w) key e).1 in
      let held : Result P × Option ℕ = (r, expiry ttl (clock v)) in
      let saved : middleware next (e, (c, w)) ≡ (returned tt, (put key held entries, (d, v))) =
        ground arith in
      let there =
        kept_by_deliveries key held between (put key held entries) (get-put_self key held entries)
          before in
      rw saved (refl, ground (arith, load_held key held _ (clock w') there fresh))

  abbrev worth_in : Option (Result P) → Bool
  worth_in none = false
  worth_in (some r) = should_remember r

  -- Whether what a handler left behind is worth remembering: it returned, with such a result.
  abbrev pub worth : Outcome (Unit {0}) × World P W → Bool
  worth (raised x, s) = false
  worth (returned _, (c, w)) = worth_in c.result

  remember_nothing :
      (key : String) (o : Outcome (Unit {0})) (c : Context P) (w : W) (e : Entries (Result P))
      → worth (o, (c, w)) ≡ false
      → remember (in_memory ttl) lower key_headers should_remember clock key (o, (c, w)) e
        ≡ (o, (e, (c, w)))
  unfolding remember
  remember_nothing key (raised x) c w e h = refl
  remember_nothing key (returned _) c w e h = ground arith

  -- An outcome that is not worth remembering (a failure under the default rule, a missing result,
  -- an exception) is passed on and pins nothing: the store is left as the lookup left it, in which
  -- the key still has no entry, so that a redelivery runs the handler again.
  pub idempotency_forgets :
      (key : String) (next : Next (World P W)) (e : Entries (Result P)) (c : Context P) (w : W)
      (later : ℕ)
      → key_in c ≡ some key
      → (load_entry (clock w) key e).0 ≡ none
      → worth (next (c, w)) ≡ false
      → let (o, (e', s)) = middleware next (e, (c, w)) in
        ((o, s) ≡ next (c, w))
        × (e' ≡ (load_entry (clock w) key e).1)
        × ((load_entry later key e').0 ≡ none)
  unfolding idempotency
  idempotency_forgets key next e c w later keyed absent unworthy =
      let entries = (load_entry (clock w) key e).1 in
      let nothing =
        remember_nothing key (next (c, w)).0 (next (c, w)).1.0 (next (c, w)).1.1 entries unworthy in
      (
        ground (arith, nothing),
        ground (arith, nothing),
        ground (arith, nothing, load_absent (clock w) later key e absent),
      )
