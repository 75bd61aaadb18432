-- ===== src/Cache/Tests.antt =====
-- Cache-aside at two calls.
use benzene_python.Prelude.{
  ℕ, String, List, ◌∷◌, arith, ◌≡◌, ◌≢◌, refl, Option, none, some, [], text_key,
}
use benzene_python.Effect.{returned, raised, error, Coroutine}
use benzene_python.Dict.{get, put, remove}
use benzene_python.Cache.{
  fetch_entry, store_entry, delete_entry, in_memory, get_or_load_bound, get_or_load, resolve, keep,
}
use benzene_python.Cache.Replay.{Use, loads, deletes, apply_all, cached_load, get_or_load_replays}

abbrev clock : ℕ → ℕ
clock now = now

abbrev price : Coroutine ℕ (Option String)
price now = (returned (some "9.99"), now)

abbrev breaks : Coroutine ℕ (Option String)
breaks now = (raised (error "TimeoutError" "slow"), now)

absent : (fetch_entry {V = String} 5 "book" []).0 ≡ none
unfolding fetch_entry get
absent = refl

cache_runs :
    (fetch_entry 70 "book" (store_entry {V = String} 5 "book" (some "9.99") (some 60) [])
      ≡ (none, []))
    × (delete_entry "book" (store_entry {V = String} 5 "book" (some "9.99") none []) ≡ [])
    × ((get_or_load_bound in_memory clock (some 60) "book" price none ([], 5)).0
        ≡ returned (some "9.99"))
unfolding fetch_entry store_entry delete_entry get put remove get_or_load_bound get_or_load resolve
    keep
cache_runs = (refl, refl, refl)

abbrev between : List (Use String ℕ)
between = loads "pen" price none 6 ∷ loads "book" breaks none 8 ∷ deletes "pen" ∷ []

apart : ◌≢◌ {A = String} "pen" "book"
apart h = ground (arith, text_key.same_iff "pen" "book")

get_or_load_replays_example :
    let e' = apply_all clock between (cached_load clock "book" price (some 60) ([], 5)).1.0 in
    ((cached_load clock "book" price (some 60) ([], 5)).0 ≡ returned (some "9.99"))
    × (cached_load clock "book" breaks none (e', 64) ≡ (returned (some "9.99"), (e', 64)))
get_or_load_replays_example =
    get_or_load_replays clock "book" price breaks (some 60) none [] 5 5 64 "9.99" between absent
      refl ((λ same. refl), ((λ same. refl), (apart, tt))) refl
