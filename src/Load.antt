-- ===== src/Load.antt =====
-- Controlled load: diagnose-lib/controlled-load-workers.mjs and controlled-load-session.mjs.
pub mod Managed
pub mod Workers
pub mod Stopping
pub mod WorkerSet
pub mod Session
pub mod Envelope
pub mod Build
pub mod Runner
pub mod Wait
mod Examples
