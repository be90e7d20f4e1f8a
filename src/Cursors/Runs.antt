-- ===== src/Cursors/Runs.antt =====
-- A move from the second row back to the first, of a table with two rows.
use dnmd.Base.{ℕ, ◌-◌, ◌%◌, ◌^◌, ◌≤◌, ◌<◌, ◌≡◌, arith, refl, [], some, false, ok}
use dnmd.Access.{cursor_row, create_cursor}
use dnmd.Cursors.{move_to, cursor_move_no_checks, md_cursor_move}
use dnmd.Cursors.Moves.{md_cursor_move_back}
use dnmd.Schema.Details.{Mdtable}

abbrev two_rows : Mdtable
two_rows = record {
  contents = record { ptr = []; size = 0 };
  row_count = 2;
  row_size_bytes = 0;
  column_count = 0;
  is_sorted = false;
  is_adding_new_row = false;
  table_id = 0;
  initialized = false;
  column_details = [];
}

-- The bit pattern of -1.
abbrev minus_one : ℕ
minus_one = 0xffffffff

md_cursor_move_back_example :
    (0 < cursor_row (create_cursor two_rows 1))
    × (cursor_row (create_cursor two_rows 1) ≤ 3)
    × (md_cursor_move (some (create_cursor two_rows 1)) ((2 ^ 32 - minus_one) % 2 ^ 32)
        ≡ ok (create_cursor two_rows 2))
unfolding md_cursor_move cursor_move_no_checks move_to
md_cursor_move_back_example =
    md_cursor_move_back (create_cursor two_rows 2) (create_cursor two_rows 1) two_rows minus_one
      refl (omega arith) (omega arith) (omega arith) (omega arith) refl
