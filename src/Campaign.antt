-- ===== src/Campaign.antt =====
-- The diagnose campaign of src/fault-affinity.
pub mod Profiles
pub mod Sysfs
pub mod Units
pub mod Topology
