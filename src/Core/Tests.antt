-- ===== src/Core/Tests.antt =====
-- The pipeline at concrete middleware. The state is what the handlers wrote.
mod Hosts
mod Messages
mod Senders
use benzene_python.Prelude.{String, ◌≡◌, refl, List, [], ◌∷◌, ◌++◌}
use benzene_python.Effect.{returned, pure}
use benzene_python.Core.Pipeline.{Middleware, register, invoke, handle}
use benzene_python.Core.Pipeline.Order.{around, handle-around, handle_short_circuit}

abbrev logs : String → Middleware (List String)
logs name n s = n (s ++ name ∷ [])

abbrev stops : String → Middleware (List String)
stops name n s = (returned tt, s ++ name ∷ [])

pipeline_runs :
    (handle (logs "a" ∷ stops "b" ∷ logs "c" ∷ []) [] ≡ (returned tt, "a" ∷ "b" ∷ []))
    × (handle (logs "a" ∷ logs "c" ∷ []) [] ≡ (returned tt, "a" ∷ "c" ∷ []))
unfolding handle invoke
pipeline_runs = (refl, refl)

handle-around_example :
    (handle (logs "a" ∷ logs "b" ∷ []) ≡ around (logs "a" ∷ logs "b" ∷ []) (pure tt))
    × (handle (register (logs "a" ∷ logs "b" ∷ []) (logs "c"))
        ≡ around (logs "a" ∷ logs "b" ∷ []) (logs "c" (pure tt)))
handle-around_example = handle-around (logs "a" ∷ logs "b" ∷ []) (logs "c")
