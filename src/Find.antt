-- ===== src/Find.antt =====
-- Finding rows by the value of a column: src/dnmd/query.c. The searches take the address of a row in
-- the table's bytes.
use dnmd.Base.{ℕ, ◌+◌, ◌-◌, ◌*◌, ◌/◌, ◌%◌, ◌^◌, bit_and}
use dnmd.Base.{List, Option, none, some, Bool, not, ◌&&◌, ◌||◌}
use dnmd.Base.{
  drop, get_elem?, ltb, leb, ◌==◌, ◌!=◌, if◌then◌else◌, Outcome, ok, failed, fault, ◌>>=◌,
}
use dnmd.Access.{Mdcursor, cursor_row, create_cursor}
use dnmd.Bytes.{Mdcdata, read_u16, read_u32}
use dnmd.Coded.{compose_coded_index}
use dnmd.Flags.{mdtc_idx_coded}
use dnmd.Schema.Details.{Mdtable, extract_offset, column_width}
use dnmd.Search.{col_compare_2bytes, col_compare_4bytes, md_bsearch, md_lsearch}
pub mod Column
pub mod Element
pub mod Range
pub mod Rows
mod Runs

-- `find_cxt_t`
pub record FindCxt : Type 0 where
  pub col_offset : ℕ
  pub data_len : ℕ
  pub details : ℕ

unfoldable pub create_find_context : Mdtable → ℕ → Outcome FindCxt
create_find_context t idx =
    if leb t.column_count idx then failed else elim (get_elem? t.column_details idx) [
      | none ↦ fault
      | some cd ↦
          ok (record { col_offset = extract_offset cd; data_len = column_width cd; details = cd })
    ]

-- `rhs`, which is 0 where the read fails; the source asserts that it does not.
abbrev pub read_or_zero : Outcome (ℕ × Mdcdata) → ℕ
read_or_zero read = elim read [ ok (v, s) ↦ v | failed ↦ 0 | fault ↦ 0 ]

-- The column of the row at the address `row` as a stream.
abbrev pub col_data : FindCxt → List ℕ → ℕ → Mdcdata
col_data fcxt bytes row = record { ptr = drop (row + fcxt.col_offset) bytes; size = fcxt.data_len }

-- `*(uint16_t*)key` is the low half of the key, on a little-endian machine.
unfoldable pub compare_row_2bytes : FindCxt → List ℕ → ℕ → ℕ → ℕ
compare_row_2bytes fcxt bytes key row =
    col_compare_2bytes (key % 2 ^ 16) (read_or_zero (read_u16 (col_data fcxt bytes row)))

unfoldable pub compare_row_4bytes : FindCxt → List ℕ → ℕ → ℕ → ℕ
compare_row_4bytes fcxt bytes key row =
    col_compare_4bytes key (read_or_zero (read_u32 (col_data fcxt bytes row)))

-- The comparison that the width of the column selects.
abbrev pub compare_row : FindCxt → List ℕ → ℕ → ℕ → ℕ
compare_row fcxt bytes key row =
    if fcxt.data_len == 2
    then compare_row_2bytes fcxt bytes key row
    else compare_row_4bytes fcxt bytes key row

-- The product is one of uint32_t.
unfoldable pub cursor_to_row_bytes : Mdtable → ℕ → ℕ
cursor_to_row_bytes t row = (row - 1) * t.row_size_bytes % 2 ^ 32

-- The key that rows are compared to: the coded index of a token.
unfoldable pub search_key : FindCxt → ℕ → Outcome ℕ
search_key fcxt value =
    if bit_and fcxt.details mdtc_idx_coded != 0
    then compose_coded_index value fcxt.details
    else ok value

-- `row_maybe`: the address of a row that has the key, from `first_row` on.
unfoldable pub find_row_address : Mdtable → FindCxt → ℕ → ℕ → Option ℕ
find_row_address t fcxt key first_row =
    let start = cursor_to_row_bytes t first_row in
    let count = t.row_count - first_row + 1 in
    if t.is_sorted && not t.is_adding_new_row
    then md_bsearch (compare_row fcxt t.contents.ptr key) t.row_size_bytes start count
    else md_lsearch (compare_row fcxt t.contents.ptr key) t.row_size_bytes start count

-- The cursor of the row at an address. The number of the row counts from the first one searched.
unfoldable pub found_cursor : Mdtable → ℕ → ℕ → Outcome Mdcursor
found_cursor t start row_maybe =
    let row = ((row_maybe - start) / t.row_size_bytes % 2 ^ 32 + 1) % 2 ^ 32 in
    if ltb t.row_count row then failed else ok (create_cursor t row)

-- What the result of a search leads to.
unfoldable pub found_row : Mdtable → ℕ → ℕ → Option ℕ → Outcome (Mdcursor × ℕ)
found_row t start key none = failed
found_row t start key (some row_maybe) =
    found_cursor t start row_maybe >>= λ cursor. ok (cursor, key)

-- The cursor, and `*value` after the call.
unfoldable pub find_row_in : Mdtable → ℕ → ℕ → ℕ → Outcome (Mdcursor × ℕ)
find_row_in t first_row idx value =
    if first_row == 0 || ltb t.row_count first_row then failed else do
      fcxt ← create_find_context t idx
      key ← search_key fcxt value
      found_row t (cursor_to_row_bytes t first_row) key (find_row_address t fcxt key first_row)

unfoldable pub find_row_from_cursor : Mdcursor → ℕ → ℕ → Outcome (Mdcursor × ℕ)
find_row_from_cursor begin idx value = elim begin.table_of [
  | none ↦ failed
  | some t ↦ find_row_in t (cursor_row begin) idx value
]

unfoldable pub md_find_row_from_cursor : Mdcursor → ℕ → ℕ → Outcome Mdcursor
md_find_row_from_cursor begin idx value =
    find_row_from_cursor begin idx value >>= λ found. ok found.0
