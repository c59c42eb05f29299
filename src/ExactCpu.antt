-- ===== src/ExactCpu.antt =====
-- The isolated exact-CPU phase: diagnose-lib/exact-cpu-phase.mjs and its plan.
pub mod Plan
pub mod Phase
pub mod Envelope
pub mod Resume
