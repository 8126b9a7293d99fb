-- ===== src/Reactor.antt =====
-- The event loop of async_io.hpp and async_io.cpp that connects, sends and receives.
pub mod Types
pub mod Tables
pub mod Steps
pub mod Connect
pub mod Worker
pub mod Effect
pub mod Handlers
pub mod Transfer
pub mod Advance
pub mod Begin
pub mod Accounts
pub mod Once
pub mod Run
pub mod Ends
pub mod Shutdown
pub mod Lifecycle
pub mod Budget
pub mod Deadlines
pub mod Sweep
pub mod Response
mod Examples
