-- ===== src/Schedule.antt =====
-- The deterministic schedules of diagnose-lib/pinned-runner.mjs.
pub mod Rng
pub mod Orders
