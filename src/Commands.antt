-- ===== src/Commands.antt =====
-- core/src/at_cmdProc.c: the handlers of the commands, each the whole C function.
pub mod Usage
pub mod Framed
pub mod Clients
pub mod Queue
pub mod Threads
pub mod Show
pub mod Timing
pub mod Quit
pub mod Dispatch
