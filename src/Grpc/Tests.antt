-- ===== src/Grpc/Tests.antt =====
-- Runs of the gRPC status mapping on small inputs.
use benzene_python.Prelude.{◌≡◌, refl, none, some, text_key}
use benzene_python.Dict.{get}
use benzene_python.Grpc.Status.{to_grpc, from_grpc}

status_runs :
    (to_grpc "conflict" none ≡ "AlreadyExists")
    × (from_grpc "Cancelled" none ≡ "service-unavailable")
    × (from_grpc "Internal" (some "out-of-stock") ≡ "out-of-stock")
    × (from_grpc "NotFound" (some "") ≡ "not-found")
unfolding to_grpc from_grpc get
status_runs = (refl, refl, refl, refl)
