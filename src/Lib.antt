-- ===== src/Lib.antt =====
-- A verification of the core of the Benzene Python port: a framework in which a message handler is
-- written once and hosted anywhere. A handler returns a result, a pipeline of middleware stands
-- around the handlers, bindings carry results over transports, and resilience policies guard the
-- calls. Services report themselves and their failures to a mesh collector.
--
-- The parts, and the files that model them:
-- - Prelude, Dict, Json, Effect: Boolean tests, lists, sorting, integers and Python's equality;
--   dicts in insertion order; decoded JSON values; coroutines that change a state and may raise an
--   exception or be cancelled.
-- - Results: packages/benzene-results/benzene/results/. Status is status.py, Errors and Result are
--   result.py, Problems is problems.py.
-- - Http/Status: packages/benzene-http/benzene/http/status.py. Grpc/Status:
--   packages/benzene-grpc/benzene/grpc/status.py and codes.py.
-- - Core: packages/benzene-core/benzene/core/. Context is context.py, Pipeline is pipeline.py,
--   Registry is registry.py, Router is router.py, Envelope (the response codec) and Application
--   (the entry point) are envelope.py, Outbound is outbound.py, Settlement is settlement.py,
--   Health is health.py, Casting is casting.py, Pointer is pointer.py.
-- - Mesh: packages/benzene-mesh/benzene/mesh/. Issues (the error detail) and Aggregator (the
--   window of a service) are issues.py, Specdoc is specdoc.py, and Collector is collector.py: its
--   catalog, with Merge the merging of an issue, Ingest the four feeds, Handlers the answers to
--   their requests, Snapshot the saved form and its saving after an ingest, and Queries the read
--   models.
-- - Auth: packages/benzene-auth/benzene/auth/, basic.py and principal.py.
-- - Cache: packages/benzene-cache/benzene/cache/, cache.py, memory.py and aside.py.
-- - Resilience: packages/benzene-resilience/benzene/resilience/. CircuitBreaker, Saga,
--   Idempotency, RateLimit and Bulkhead are the files of those names, and Guards the middleware
--   and senders around the circuit breaker and the rate limiter.
--
-- How state is modelled: an object is a record, and a method a function to the new record; a
-- coroutine is a function from the world to its outcome (a value, an exception, or a cancellation)
-- and the new world. Tasks that interleave at an await are steps of a relation, and what is proved
-- of them holds in every reachable state.
--
-- Times are whole ticks of a clock that the world shows, and a rate limiter's tokens are counted
-- in units: the code's floats stand for rational numbers, and their rounding is not modelled.
-- Python's built-ins str, repr and str.lower, json.dumps, json.loads and to_jsonable (with the
-- exceptions that they raise), to_request (which reflects over types), and asyncio.Semaphore,
-- SHA-256, and for the collector also int, float, == and < on JSON values, are parameters, with
-- what is assumed of them as hypotheses or as the laws of an interface.
--
-- Loops over lists are structural recursion; the pipeline's recursion on an index counts the calls
-- that are left, as many as there are middleware, after which the index is past the end. The
-- search for a chain of casts counts one turn for each type that it may meet, and the resolving of
-- a schema one reference for each schema of the catalogue; both allowances are proved to be
-- enough.
--
-- Not modelled: the transports themselves, contract documents as core/contract.py makes them
-- (reflection over Python types), the dependency container, routing of HTTP requests, bearer
-- tokens, the rest of the mesh (the collector's summaries of flows, its stores on disk and in S3,
-- traces, probes, artifacts, feeds), and the texts of ValueErrors.
mod Prelude
pub mod Dict
pub mod Json
pub mod Mesh
pub mod Effect
pub mod Auth
pub mod Cache
pub mod Results
pub mod Http
pub mod Grpc
pub mod Core
pub mod Resilience
