-- ===== src/Attempt.antt =====
-- One workload attempt: its supervisor, diagnose-lib/attempt-supervisor.mjs, and how the outcome of
-- a child is classified, diagnose-lib/pinned-runner.mjs.
pub mod Launch
pub mod Supervisor
pub mod Classify
