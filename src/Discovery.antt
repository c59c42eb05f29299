-- ===== src/Discovery.antt =====
-- The loaded screen of src/fault-affinity/loaded-discovery.mjs: a controlled-load session for each
-- target CPU, the ranking of the CPUs by what their sessions show, and the report.
pub mod Ranking
pub mod Plan
pub mod Report
