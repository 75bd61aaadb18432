-- ===== src/Mesh.antt =====
-- packages/benzene-mesh/benzene/mesh/: what services report of themselves, and the collector that
-- merges it.
pub mod Issues
pub mod Aggregator
pub mod Specdoc
pub mod Collector
mod Tests
