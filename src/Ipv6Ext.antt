-- ===== src/Ipv6Ext.antt =====
-- The IPv6 extension headers that scan.cpp puts into its probes.
pub mod Types
pub mod Options
pub mod Routing
pub mod Tlv
pub mod Header
pub mod Segments
pub mod Security
pub mod Authentication
mod Examples
