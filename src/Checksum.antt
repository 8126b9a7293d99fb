-- ===== src/Checksum.antt =====
-- The Internet checksums of scan.cpp and icmp_ping.hpp.
pub mod Sum
pub mod Fold
pub mod Verify
mod Examples
