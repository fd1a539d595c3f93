-- ===== src/World.antt =====
-- The program's state and what it asks of the operating system. The static variables of the source
-- files are the fields of `World`; a C function is a function in the monad `M`, where `none` stands
-- for behaviour that C leaves undefined (an access outside an array, a NULL or an overflow).
pub mod State
pub mod Monad
pub mod Array
pub mod Keeps
pub mod Gives
