-- ===== src/CString.antt =====
-- The parts of the C library that the program calls on strings: `strcmp`, `strncmp`, `strstr`,
-- `snprintf` into a bounded buffer, `printf` formats, `strtok` and `atoi`. A string is the list of
-- the bytes before its NUL; a call whose behaviour C leaves undefined gives `none`.
pub mod Compare
pub mod Format
pub mod Tokens
pub mod Words
pub mod Number
pub mod Find
