-- ===== src/Access.antt =====
-- Columns of rows: src/dnmd/access.c, with the cursors of src/dnmd/query.c and src/dnmd/internal.h.
use dnmd.Base.{ℕ, zero, suc, ◌+◌, ◌-◌, ◌*◌, ◌/◌, ◌%◌, ◌^◌, bit_and}
use dnmd.Base.{List, Option, none, some, Bool, ◌||◌}
use dnmd.Base.{drop, get_elem?, ltb, ◌==◌, ◌!=◌, if◌then◌else◌, Outcome, ok, failed, fault, ◌>>=◌}
use dnmd.Bytes.{Mdcdata, read_u16, read_u32}
use dnmd.Coded.{rid_from_token}
use dnmd.Flags.{mdtc_b4}
use dnmd.Schema.Details.{Mdtable, extract_offset}
pub mod Bounds
pub mod Bulk
mod Runs

-- `mdcursor_t`: `_reserved1` is the table, none for NULL, and `_reserved2` the row.
pub record Mdcursor : Type 0 where
  pub table_of : Option Mdtable
  pub row_of : ℕ

abbrev pub cursor_row : Mdcursor → ℕ
cursor_row c = rid_from_token c.row_of

-- The assertion on the row is no test.
abbrev pub create_cursor : Mdtable → ℕ → Mdcursor
create_cursor t row = record { table_of = some t; row_of = row }

-- The part of `access_cxt_t` that reads use.
pub record AccessCxt : Type 0 where
  pub bytes : List ℕ
  pub col_details : ℕ

-- `row * table->row_size_bytes + ExtractOffset(col)` in 32 bits, of a row from 0.
abbrev pub offset_to_table_data : Mdtable → ℕ → ℕ → ℕ
offset_to_table_data t row col = (row * t.row_size_bytes + extract_offset col) % 2 ^ 32

-- `idx` is the `uint8_t` that `col_to_index` has made of the column index. A column that the table
-- has not fails an assertion or reads past `column_details`.
unfoldable pub access_row : Mdtable → ℕ → ℕ → Outcome AccessCxt
access_row t row idx =
    if row == 0 || ltb t.row_count row then failed else elim (get_elem? t.column_details idx) [
      | none ↦ fault
      | some col ↦ ok (record {
        bytes = drop (offset_to_table_data t (row - 1) col) t.contents.ptr;
        col_details = col;
      })
    ]

-- A context that is to be read, `make_writable` being false.
unfoldable pub create_access_context : Mdcursor → ℕ → Outcome AccessCxt
create_access_context cursor idx = elim cursor.table_of [
  | none ↦ failed
  | some t ↦ access_row t (cursor_row cursor) idx
]

abbrev pub value : Outcome (ℕ × Mdcdata) → Outcome ℕ
value read = read >>= λ r. ok r.0

unfoldable pub read_column_data : AccessCxt → Outcome ℕ
read_column_data acxt =
    if bit_and acxt.col_details mdtc_b4 == mdtc_b4
    then value (read_u32 (record { ptr = acxt.bytes; size = 4 }))
    else value (read_u16 (record { ptr = acxt.bytes; size = 2 }))

-- `create_access_context` and `read_column_data`, the way every reader calls them.
unfoldable pub read_column : Mdcursor → ℕ → Outcome ℕ
read_column cursor idx = do acxt ← create_access_context cursor idx; read_column_data acxt
