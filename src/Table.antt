-- ===== src/Table.antt =====
-- The table parser, tbl.c, tbl_opts.c, tbl_layout.c and tbl_data.c.
pub mod Options
pub mod Cells
pub mod Rows
pub mod Layout
pub mod Data
pub mod Reading
mod Tests
