-- ===== src/Dba.antt =====
-- The writer of databases: the output file of dba_write.c (Write) and the arrays of dba_array.c
-- (Array), with the loop over an array (Loop) and the count of deleted entries (Counts).
pub mod Write
pub mod Array
pub mod Loop
pub mod Counts
mod Tests
