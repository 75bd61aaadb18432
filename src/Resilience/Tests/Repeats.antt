-- ===== src/Resilience/Tests/Repeats.antt =====
-- The idempotency middleware at two deliveries of one message.
use benzene_python.Prelude.{
  ℕ, String, true, false, ◌≡◌, ◌≢◌, refl, arith, none, some, [], ◌∷◌, text_key,
}
use benzene_python.Effect.{returned, raised, error}
use benzene_python.Dict.{get}
use benzene_python.Results.Status
use benzene_python.Results.Result
use benzene_python.Results.Result.{Result}
use benzene_python.Core.Context.{World, Context}
use benzene_python.Core.Pipeline.{Next}
use benzene_python.Resilience.Idempotency.{default_key_headers, load_entry, key_of}
use benzene_python.Resilience.Idempotency.Replay.{
  middleware, key_in, deliver, idempotency_replays, idempotency_forgets,
}

abbrev lower : String → String
lower s = s

abbrev clock : ℕ → ℕ
clock now = now

abbrev charge : Context String
charge = record {
  topic = "payments:charge";
  version = "";
  request = "card";
  headers = ("message-id", "m1") ∷ [];
  result = none;
  ignore_unmatched_topic = false;
}

abbrev charged : Result String
charged = Result.created (some "receipt")

abbrev handler : Next (World String ℕ)
handler (c, now) = (returned tt, (record c { result = some charged }, now))

abbrev crash : Next (World String ℕ)
crash (c, now) = (raised (error "RuntimeError" "down"), (c, now))

keyed : key_in lower default_key_headers Result.is_successful clock (some 60) charge ≡ some "m1"
unfolding key_of get
keyed = refl

absent : (load_entry {R = Result String} 5 "m1" []).0 ≡ none
unfolding load_entry get
absent = refl

is_worth : Result.is_successful charged ≡ true
unfolding Result.is_successful Status.is_successful
is_worth = refl

abbrev refund : Context String
refund = record charge { headers = ("message-id", "m2") ∷ [] }

apart : key_in lower default_key_headers Result.is_successful clock (some 60) refund ≢ some "m1"
unfolding key_of get
apart h = ground (arith, text_key.same_iff "m2" "m1")

idempotency_replays_example :
    let served = middleware lower default_key_headers Result.is_successful clock (some 60) in
    let e' =
      deliver lower default_key_headers Result.is_successful clock
        (some 60)
        ((handler, (refund, 7)) ∷ (crash, (charge, 9)) ∷ [])
        (served handler ([], (charge, 5))).1.0 in
    ((served handler ([], (charge, 5))).1.1 ≡ (record charge { result = some charged }, 5))
    × (served crash (e', (charge, 50))
        ≡ (returned tt, (e', (record charge { result = some charged }, 50))))
idempotency_replays_example =
    idempotency_replays lower default_key_headers Result.is_successful clock (some 60) "m1" charged
      handler crash [] charge (record charge { result = some charged }) charge 5 5 50
      ((handler, (refund, 7)) ∷ (crash, (charge, 9)) ∷ []) keyed absent refl refl is_worth
      ((λ same. absurd (apart same)), ((λ same. refl), tt)) keyed refl

idempotency_forgets_example :
    let (o, (e', s)) =
      middleware lower default_key_headers Result.is_successful clock
        (some 60)
        crash
        ([], (charge, 5)) in
    ((o, s) ≡ crash (charge, 5))
    × (e' ≡ (load_entry {R = Result String} 5 "m1" []).1)
    × ((load_entry 6 "m1" e').0 ≡ none)
idempotency_forgets_example =
    idempotency_forgets lower default_key_headers Result.is_successful clock (some 60) "m1" crash []
      charge 5 6 keyed absent refl
