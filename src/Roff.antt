-- ===== src/Roff.antt =====
-- roff.c, the roff(7) preprocessor: numeric expressions and conditions, number registers, and
-- user-defined strings. A position in the line is the list of the bytes from there on.
pub mod Int32
pub mod Double
pub mod Number
pub mod Condition
pub mod Register
pub mod Argument
pub mod Name
pub mod Strtab
mod Tests
