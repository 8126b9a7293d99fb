-- ===== src/Probe.antt =====
-- The service probes of probe.hpp and probe.cpp.
pub mod Text
pub mod Escape
pub mod Fingerprint
pub mod Wrap
pub mod RoundTrip
pub mod Recorded
pub mod Types
pub mod Match
pub mod Lookup
pub mod Engine
pub mod Index
pub mod Progress
pub mod Explained
pub mod Sound
pub mod Reported
pub mod Tried
pub mod Steps
pub mod Complete
pub mod NoMatch
pub mod Excluded
pub mod Added
pub mod Spec
pub mod Excluding
pub mod Fallbacks
pub mod Compiled
pub mod Compilation
pub mod Tries
mod Examples
