-- ===== src/Logs.antt =====
-- core/src/autoTest.c: the two threads that serve the phones, `cmd_send` and `ret_receive`, and what a
-- log line of a phone does to the tables.
pub mod Lines
pub mod Counts
pub mod Serve
pub mod Delivery
pub mod Effects
pub mod Ports
pub mod Stamp
