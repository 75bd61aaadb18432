-- ===== src/Results.antt =====
-- packages/benzene-results: the status vocabulary, structured errors, results, problem types.
pub mod Status
pub mod Errors
pub mod Result
pub mod Problems
pub mod Consistent
pub mod Documents
mod Tests
