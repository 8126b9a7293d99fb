-- ===== src/Rtt.antt =====
-- The estimate of the round trip time of scan.hpp.
pub mod Tracker
pub mod Bounds
mod Examples
