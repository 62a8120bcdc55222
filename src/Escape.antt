-- ===== src/Escape.antt =====
-- Escape sequences: roff_escape.c. `Parse` puts `roff_escape` together from the names (Syntax), the
-- delimiters (Delimit), the loop over the argument (Scan) and the checks of its content (Check). What
-- is proved: the places that are found (Places), the reads behind the line (Past), the arguments of
-- the standard forms (Forms).
pub mod Syntax
pub mod Delimit
pub mod Scan
pub mod Check
pub mod Parse
pub mod Places
pub mod Past
pub mod Forms
mod Tests
