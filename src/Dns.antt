-- ===== src/Dns.antt =====
-- The DNS messages of handler.cpp: queries, names with compression pointers, and answers.
pub mod Reader
pub mod Encode
pub mod Names
pub mod Answer
pub mod NameSafety
pub mod Safety
pub mod RoundTrip
pub mod First
mod Examples
