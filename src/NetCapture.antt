-- ===== src/NetCapture.antt =====
-- The passive discovery of net_capture.hpp and net_capture.cpp.
pub mod Types
pub mod Bytes
pub mod Dedupe
pub mod Tcp
pub mod Udp
pub mod Frame
pub mod Sweep
pub mod Duration
pub mod Run
pub mod Step
pub mod Trace
pub mod Reported
pub mod Tidy
pub mod Outcome
pub mod Window
pub mod Handshake
pub mod Soundness
pub mod Expiry
pub mod Limits
mod Examples
mod HandlerExamples
pub mod Safety
