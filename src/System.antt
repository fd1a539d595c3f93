-- ===== src/System.antt =====
-- The whole program: the typed commands, the script threads and the two threads that serve the phones,
-- as steps on one state.
pub mod Invariant
pub mod Clients
pub mod Keys
pub mod Messages
pub mod Counts
pub mod Services
pub mod Commands
pub mod Scripts
pub mod Reach
pub mod Delivery
pub mod Arrival
pub mod Removal
pub mod Overtaken
pub mod RandomPress
pub mod TextArrival
pub mod Entries
pub mod Shown
pub mod LateScript
pub mod ScriptArrival
pub mod Turns
