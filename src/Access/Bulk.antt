-- ===== src/Access/Bulk.antt =====
-- Reads of a column down the rows: the bulk access of src/dnmd/access.c.
use dnmd.Base.{ℕ, ◌+◌, ◌-◌, ◌*◌, ◌%◌, ◌^◌, bit_and}
use dnmd.Base.{List, none, some, Bool, ◌||◌, drop, get_elem?, ltb, ◌==◌, if◌then◌else◌}
use dnmd.Base.{Outcome, ok, failed, fault, ◌>>=◌}
use dnmd.Access.{Mdcursor, cursor_row}
use dnmd.Bytes.{Mdcdata, read_u16, read_u32}
use dnmd.Flags.{mdtc_b4}
use dnmd.Schema.Details.{Mdtable, column_width, extract_offset}

-- `bulk_access_cxt_t`: the bytes from `data` on, and the places of `data`, here
-- `place`, and of `end` in the table's bytes.
pub record BulkAccessCxt : Type 0 where
  pub col_details : ℕ
  pub bytes : List ℕ
  pub place : ℕ
  pub end : ℕ
  pub data_len : ℕ
  pub data_len_col : ℕ
  pub next_row_stride : ℕ

-- The row after the last one that is read, from 0 on.
abbrev pub last_row : Mdtable → ℕ → ℕ → ℕ
last_row t row row_count =
    if ltb t.row_count ((row + row_count) % 2 ^ 32) then t.row_count else (row + row_count) % 2 ^ 32

-- The products have 32 bits, `size_t` has 64.
abbrev pub bulk_access : Mdtable → ℕ → ℕ → ℕ → BulkAccessCxt
bulk_access t row col row_count = record {
  col_details = col;
  bytes = drop ((row * t.row_size_bytes) % 2 ^ 32 + extract_offset col) t.contents.ptr;
  place = (row * t.row_size_bytes) % 2 ^ 32 + extract_offset col;
  end = (last_row t row row_count * t.row_size_bytes) % 2 ^ 32;
  data_len = column_width col;
  data_len_col = column_width col;
  next_row_stride = (t.row_size_bytes + 2 ^ 32 - column_width col) % 2 ^ 32;
}

-- `idx` is the `uint8_t` that `col_to_index` has made of the column index. A column that the table
-- has not fails an assertion or reads past `column_details`.
unfoldable pub bulk_access_row : Mdtable → ℕ → ℕ → ℕ → Outcome BulkAccessCxt
bulk_access_row t row idx row_count =
    if row == 0 || ltb t.row_count row then failed else elim (get_elem? t.column_details idx) [
      | none ↦ fault
      | some col ↦ ok (bulk_access t (row - 1) col row_count)
    ]

unfoldable pub create_bulk_access_context : Mdcursor → ℕ → ℕ → Outcome BulkAccessCxt
create_bulk_access_context cursor idx row_count = elim cursor.table_of [
  | none ↦ failed
  | some t ↦ bulk_access_row t (cursor_row cursor) idx row_count
]

-- The context after a read of `bytes` of the `data_len` that there were.
abbrev pub advanced : BulkAccessCxt → ℕ × Mdcdata → Outcome (ℕ × BulkAccessCxt)
advanced acxt (value, s) = ok (
  value,
  record acxt { bytes = s.ptr; place = acxt.place + (acxt.data_len - s.size); data_len = s.size },
)

unfoldable pub read_column_data_and_advance : BulkAccessCxt → Outcome (ℕ × BulkAccessCxt)
read_column_data_and_advance acxt =
    if bit_and acxt.col_details mdtc_b4 == mdtc_b4
    then read_u32 (record { ptr = acxt.bytes; size = acxt.data_len }) >>= advanced acxt
    else read_u16 (record { ptr = acxt.bytes; size = acxt.data_len }) >>= advanced acxt

-- The context at the next row, and whether there is one. A pointer that has gone past the last byte
-- is compared to `end` all the same. The assertion that the column has been read is no test.
unfoldable pub next_row : BulkAccessCxt → BulkAccessCxt × Bool
next_row acxt = (
  record acxt {
    bytes = drop acxt.next_row_stride acxt.bytes;
    place = acxt.place + acxt.next_row_stride;
    data_len = acxt.data_len_col;
  },
  ltb (acxt.place + acxt.next_row_stride) acxt.end,
)
