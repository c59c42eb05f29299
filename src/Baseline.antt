-- ===== src/Baseline.antt =====
-- The concurrent baseline phase: diagnose-lib/baseline-phase.mjs.
pub mod Manifest
pub mod Waves
