-- ===== src/Grpc.antt =====
-- packages/benzene-grpc: the gRPC binding.
pub mod Status
mod Tests
