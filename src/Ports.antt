-- ===== src/Ports.antt =====
-- The lists of ports that utils.cpp reads.
pub mod File
pub mod Sorted
pub mod Numbers
pub mod Read
mod Examples
