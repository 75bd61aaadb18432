-- ===== src/Http.antt =====
-- packages/benzene-http: the HTTP binding.
pub mod Status
mod Tests
