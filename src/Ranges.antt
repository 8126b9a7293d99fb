-- ===== src/Ranges.antt =====
-- The ranges of addresses of utils.cpp, by which a provider is found.
pub mod Tables
pub mod Lookup
pub mod Networks
mod Examples
