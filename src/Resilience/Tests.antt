-- ===== src/Resilience/Tests.antt =====
-- Runs of the resilience policies, and their theorems at inputs that meet the hypotheses.
mod Breakers
mod Guards
mod Sagas
mod Limits
mod Repeats
