-- ===== src/Core.antt =====
-- packages/benzene-core: contexts, the pipeline, the registry and the router.
pub mod Casting
pub mod Pointer
pub mod Context
pub mod Pipeline
pub mod Application
pub mod Envelope
pub mod Outbound
pub mod Registry
pub mod Router
pub mod Settlement
pub mod Health
mod Tests
