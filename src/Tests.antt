-- ===== src/Tests.antt =====
-- The theorems at concrete inputs, and runs of the model.
mod Fixtures
mod Examples
mod Services
mod Session
mod Steps
mod Typed
mod Arrival
mod Received
mod Turns
mod Lines
mod Scripted
