-- ===== src/Lib.antt =====
-- mandoc: the mdoc(7), man(7) and roff(7) toolset. A page goes through the input stage (read.c,
-- preconv.c), which makes 7-bit lines of it; the roff(7) preprocessor (roff.c, roff_escape.c), which
-- expands escape sequences, registers and strings; the macro parsers, which build a syntax tree; and
-- the formatters, which print it.
--
-- Which file models which part:
--
-- Prelude     names of the libraries, tests and lists over the native numbers, C strings as lists of
--             the bytes before the NUL (a pointer into a string is the list from there on), and C's
--             signed integers.
-- Preconv     preconv.c, `preconv_encode` and `preconv_cue`, and the character loop of
--             `mparse_buf_r` in read.c. The masks and shifts of a byte are written with % and /. A
--             read behind the end of the buffer is an outcome of its own.
-- Roffsu      `a2roffsu` of out.c, with `strtod` as a parameter.
-- TermTab     term_tab.c. The static `tabs` is the record `Tabs`; of an array only the used positions
--             are kept, with the number of the allocated ones; `size_t` sums are modulo 2 ^ 64.
-- Escape      roff_escape.c, `roff_escape` in the stages of its code; places are indices into the line,
--             and a read behind the NUL is an outcome of its own. Font: `mandoc_font` of mandoc.c.
-- Table       the tbl(7) parser. Table.Options: tbl_opts.c. Table.Cells: `mods` of tbl_layout.c, where
--             `goto mod` is a round of a loop. Table.Rows: the rows, as lists with the last one first,
--             `cell_alloc`, and the full stop of a layout. Table.Layout: `cell` and `tbl_layout`. Columns
--             are natural numbers; the bits of the options and flags are their numbers in tbl.h.
--             Table.Data: tbl_data.c, the cells in Table.Data and the steps over a line in
--             Table.Data.Steps; `getdata` finds the end of an escape sequence by the model of
--             roff_escape.c, and the failed assertion of `mandoc_escape` is an outcome of its own, which a
--             line without sequences to expand does not have. Rows of data are lists with the last one
--             first and refer to rows and columns of the layout by number. Table.Reading: `tbl_read`
--             and `tbl_end` of tbl.c over all sections. The fuel for a line is one more than its bytes.
-- Xref        mandoc_xr.c, where the list of entries stands for the hash table too.
-- Sentence    `mandoc_eos` of mandoc.c, which looks for the end of a sentence.
-- Dba         the arrays of dba_array.c over the output of dba_write.c. An array is the list of its
--             used places, an entry with its map position in each; the file is its bytes and a
--             position. Failed assertions are `none`.
--
-- Tree        the syntax tree of roff.c: a pointer is a number, 0 for NULL, and each field of a node a
--             function on the nodes. Tree: allocation and `roff_node_append`; Tree.Detach: unlinking;
--             Tree.Walk: the walks over nodes that are not transparent; Tree.Text: `deroff`. A tree is
--             described by the list of the children of each node (Tree.Links, Tree.Refine). Nodes that
--             are freed keep their fields.
--
-- Argument    roff_getarg of roff.c and the loop over it in roff_userdef, in Roff.Argument; what
--             roff_expand does behind them is not modelled. Roff.Name: roff_getname, over the model
--             of roff_escape.c. The loop of roff_getarg has one more fuel than the bytes of its line, and
--             does not come to its end; that of roff_userdef takes fuel for each argument.
--
-- Roff        roff.c. Roff.Number: numeric expressions (`roff_getnum` to `roff_evalnum`), over C's int
--             (Roff.Int32) and the type double as a parameter (Roff.Double); a position in the line
--             is the rest of the line. Roff.Condition: `roff_evalstrcond` and `roff_evalcond`.
--             Roff.Register: number registers, as a list. Roff.Strtab: user-defined strings, with the
--             generated tables of names as parameters. `roff_getname`, escape sequences and the
--             lookup of glyphs are parameters of these modules.
--
-- Sums, differences and products of C's int wrap around; the quotients that do not fit are traps.
-- Loops that are no recursion on a list take fuel; `none`, or a constructor of the outcome, says that
-- the fuel ran out, and a theorem says how much is enough, or that none is.
--
-- Not modelled: memory allocation, which is taken to succeed, and freeing; diagnostic messages, which
-- do not change the results; the formatters, the macro parsers, the pages of the database and the
-- programs around them, which later parts of the library may add.
pub mod Prelude
pub mod Preconv
pub mod Roffsu
pub mod Dba
pub mod Sentence
pub mod Xref
pub mod Font
pub mod Escape
pub mod Table
pub mod TermTab
pub mod Tree
pub mod Roff
