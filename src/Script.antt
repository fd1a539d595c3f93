-- ===== src/Script.antt =====
-- core/src/at_cmdProc.c: `cpScriptContentToArray`, which reads a script into an array of commands, and
-- `scriptCmdProcess`, which runs them.
pub mod Load
pub mod Run
pub mod Loops
pub mod Cut
pub mod Search
pub mod Plain
pub mod Rows
