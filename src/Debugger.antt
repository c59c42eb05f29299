-- ===== src/Debugger.antt =====
-- The debugger control protocol.
pub mod Control
