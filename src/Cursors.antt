-- ===== src/Cursors.antt =====
-- Moving cursors: src/dnmd/query.c.
use dnmd.Base.{
  Bool, ℕ, ◌+◌, ◌%◌, ◌^◌, ◌||◌, Option, none, some, ltb, ◌==◌, if◌then◌else◌, Outcome, ok, failed,
  fault,
}
use dnmd.Access.{Mdcursor, cursor_row, create_cursor}
use dnmd.Schema.Details.{Mdtable}
pub mod Moves
mod Runs

-- `CursorNull` and `CursorEnd`, of a cursor into a table.
abbrev pub cursor_null : Mdcursor → Bool
cursor_null c = cursor_row c == 0

abbrev pub cursor_end : Mdtable → Mdcursor → Bool
cursor_end t c = (t.row_count + 1) % 2 ^ 32 == cursor_row c

-- The cursor at a row, or the refusal of a row that is neither one of the table nor its end.
unfoldable pub move_to : Mdtable → ℕ → Outcome Mdcursor
move_to t row =
    if row == 0 || ltb ((t.row_count + 1) % 2 ^ 32) row then failed else ok (create_cursor t row)

-- The sum is one of uint32_t, `delta` being the bit pattern of an int32_t. A cursor without a table
-- fails an assertion.
unfoldable pub cursor_move_no_checks : Mdcursor → ℕ → Outcome Mdcursor
cursor_move_no_checks c delta = elim c.table_of [
  | none ↦ fault
  | some t ↦ move_to t ((cursor_row c + delta) % 2 ^ 32)
]

-- `none` is NULL.
unfoldable pub md_cursor_move : Option Mdcursor → ℕ → Outcome Mdcursor
md_cursor_move none delta = failed
md_cursor_move (some c) delta = elim c.table_of [
  | none ↦ failed
  | some t ↦ cursor_move_no_checks c delta
]

unfoldable pub md_cursor_next : Option Mdcursor → Outcome Mdcursor
unfolding md_cursor_move
md_cursor_next c = md_cursor_move c 1
