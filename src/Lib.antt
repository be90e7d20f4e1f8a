-- ===== src/Lib.antt =====
-- DNMD, a library that reads ECMA-335 metadata: what the C code of src/dnmd does, and what holds of it.
--
-- A metadata image is a root with streams. The library keeps a context (mdcxt_t of
-- src/dnmd/internal.h): the heaps of strings, user strings, GUIDs and blobs, the table heap, the PDB
-- stream, and one mdtable_t for each table. src/dnmd/streams.c reads the heaps and loads the tables;
-- it takes numbers off streams with src/dnmd/bytes.c, and has the layout of each table's rows from
-- src/dnmd/tables.c. A loaded table is read a column at a time through src/dnmd/access.c, and searched
-- with the templates of src/dnmd/search.template.h that src/dnmd/query.c instantiates.
--
-- Which file is about which code:
--
--   Bytes          bytes.c: streams, little-endian and compressed numbers. mdcdata_t is the pair of
--                  the bytes from the pointer on and the size, since the two are passed apart.
--   Ids, Flags     the ids of inc/dnmd.h and the column flags and coded index ids of internal.h
--   Coded          tables.c: coded_index_map, compose_coded_index, decompose_coded_index
--   Schema.Kinds   tables.c: the assignments of initialize_table_details as lists of column kinds
--   Schema.Details tables.c: widths of indices, compute_row_offsets_size, initialize_table_details,
--                  consume_table_rows
--   Schema.Keys    tables.c: get_table_keys, initialize_new_table_details, indirection tables
--   Search         search.template.h, with SEARCH_COMPARE as a parameter, and the two comparisons
--   Context        mdcxt_t
--   Heaps          streams.c: try_get_* and validate_* of the heaps; md_walk_user_string_heap
--   Tables         streams.c: initialize_tables and try_get_pdb
--   Tables.Valid   streams.c: validate_tables
--   Cursors        query.c: md_cursor_move and md_cursor_next
--   Access         access.c: create_access_context and read_column_data; Access.Bulk: the bulk reads
--   Query          query.c: tokens, and the getters of column values; Query.Lists: lists of child rows;
--                  Query.Many: md_get_many_rows_column_value_as_token
--   Find           query.c: md_find_row_from_cursor; Find.Range: md_find_range_from_cursor;
--                  Find.Element: find_range_element and its callers, md_resolve_indirect_cursor
--   Pdb            pdb_blobs.c: what its parsers share, in Pdb the results and the buffers;
--                  Pdb.Names: md_parse_document_name; Pdb.Imports: md_parse_imports, with the
--                  format of its blobs in Pdb.Imports.Format;
--                  Pdb.Points: md_parse_sequence_points; Pdb.Constants: md_parse_local_constant_sig
--   Samples        a table and a context for the runs
--
-- The modules below each of these hold the proofs, named for what they prove, and Runs the examples.
-- Base has the shared names: lists over native numbers, tests, facts on `bit_and` and `bit_or`, and
-- Outcome, the result of a call: `ok` with what it returns and stores through its pointers, `failed`
-- for `false`, and `fault` for an access outside the bytes or the array, which is undefined behaviour.
-- A failed call stores nothing here, where the source may have stored a part.
--
-- A pointer into a buffer is the list of the bytes from it on, so that the bytes of a list are the
-- ones that may be read; the size that the source carries along is a number of its own, and IsStream
-- says that this many bytes are there. Numbers are natural numbers, with `% 2 ^ w` where the source
-- wraps; an int32_t is its bit pattern. An assertion of the source is not a test here.
--
-- The loop of count_set_bits is a recursion on the accessibility of the number under `<`. The loops of
-- the searches run on fuel, the number of rows, and each round leaves fewer of them. The loop of
-- initialize_tables over the mask runs on fuel 64, the bits that a mask has. The loops of
-- query.c that move cursors run on fuel, the rows and one, and each round moves by a row. The loops of
-- pdb_blobs.c that count run on fuel, the bytes of the blob, of which each round takes some. The loops
-- over counts, columns, rows, keys and the entries of a blob are structural.
--
-- A search takes the address of a row within the bytes of its table for the pointer to it. The context
-- that query.c takes from the table of a cursor is an argument, and a cursor has a copy of its table:
-- nothing that is modelled changes a table that a cursor is into, but for the id of a table that has
-- none, which md_get_column_value_as_cursor gives it in the context and in the cursor it returns.
--
-- Not modelled: entry.c, write.c, editor.c, deltas.c, the writes of access.c, and what is
-- outside src/dnmd: the COM interfaces, the tools and the tests. The one-line wrappers in bytes.c are
-- not written out.
pub mod Base
pub mod Bytes
pub mod Ids
pub mod Flags
pub mod Coded
pub mod Schema
pub mod Samples
pub mod Search
pub mod Context
pub mod Heaps
pub mod Tables
pub mod Access
pub mod Cursors
pub mod Find
pub mod Pdb
pub mod Query
