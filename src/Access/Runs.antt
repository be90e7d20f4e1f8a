-- ===== src/Access/Runs.antt =====
-- Runs on a NestedClass table with two rows: a read of a column, and the order of the rows.
use dnmd.Base.{ℕ, ◌+◌, ◌-◌, ◌*◌, ◌≤◌, ◌≡◌, arith, refl}
use dnmd.Base.{List, [], ◌∷◌, some, false, drop, get_elem?, ok}
use dnmd.Access.{
  Mdcursor, cursor_row, access_row, create_access_context, read_column, read_column_data,
}
use dnmd.Access.Bounds.{read_column-IsLoaded}
use dnmd.Bytes.{read_u16, read_le, read_sized}
use dnmd.Samples.{rows, nested_class, nested_class-IsLoaded, context_of}
use dnmd.Bytes.Little.{little}
use dnmd.Schema.Details.{column_width, extract_offset}
use dnmd.Schema.Keys.{MdKeyInfo, get_table_keys, table_keys, table_is_indirect_table}
use dnmd.Tables.Sorted.{Ordered, validate_tables-Ordered}
use dnmd.Tables.Valid.{
  check_keys, check_rows, has_indirect, validate_from, validate_table, validate_tables,
}

abbrev second_row : Mdcursor
second_row = record { table_of = some nested_class; row_of = 2 }

read_column-IsLoaded_example :
    (col : ℕ) × (get_elem? nested_class.column_details 1 ≡ some col)
    × ((cursor_row second_row - 1) * 4 + extract_offset col + column_width col ≤ 8)
    × (read_column second_row 1
        ≡ ok (
            little
              (column_width col)
              (drop ((cursor_row second_row - 1) * 4 + extract_offset col) rows)))
read_column-IsLoaded_example =
    read_column-IsLoaded second_row nested_class 1 nested_class-IsLoaded refl (omega arith)
      (omega arith) (omega arith) (omega arith)

abbrev by_first : List MdKeyInfo
by_first = record { index = 0; descending = false } ∷ []

validate_tables-Ordered_example : Ordered nested_class 1 by_first
unfolding validate_tables validate_from validate_table check_rows check_keys has_indirect
    get_table_keys table_keys table_is_indirect_table create_access_context access_row
    read_column_data read_u16 read_le read_sized
validate_tables-Ordered_example =
    validate_tables-Ordered (context_of 0x29 (nested_class ∷ [])) 0x29 nested_class by_first 1 refl
      refl refl refl (omega arith) (omega arith)
