-- ===== src/Query/Lists.antt =====
-- Lists of child rows: `md_get_column_value_as_range` of src/dnmd/query.c.
use dnmd.Base.{ℕ, zero, suc, ◌+◌, ◌-◌, ◌%◌, ◌^◌}
use dnmd.Base.{
  Option, none, some, Bool, true, false, ◌||◌, ◌==◌, if◌then◌else◌, Outcome, ok, failed, fault,
  ◌>>=◌,
}
use dnmd.Access.{Mdcursor, cursor_row}
use dnmd.Context.{Mdcxt}
use dnmd.Cursors.{cursor_move_no_checks, cursor_null}
use dnmd.Query.{md_get_column_value_as_cursor}
use dnmd.Schema.Details.{Mdtable}
pub mod Next

-- `CursorEnd`. A cursor without a table is read through a null pointer.
unfoldable pub at_end_of : Mdcursor → Outcome Bool
at_end_of c = elim c.table_of [
  | none ↦ fault
  | some t ↦ ok ((t.row_count + 1) % 2 ^ 32 == cursor_row c)
]

-- `nextMaybe` after a move that may fail.
abbrev pub moved_if : Mdcursor → Outcome Mdcursor → Outcome Mdcursor
moved_if c (ok c') = ok c'
moved_if c failed = ok c
moved_if c fault = fault

abbrev pub difference : ℕ → ℕ → ℕ
difference a b = (a + 2 ^ 32 - b) % 2 ^ 32

-- The rows that remain in the target table.
unfoldable pub remaining : Mdcursor → Outcome ℕ
remaining cursor = elim cursor.table_of [
  | none ↦ fault
  | some t ↦ ok ((difference t.row_count (cursor_row cursor) + 1) % 2 ^ 32)
]

-- The loop from `next_maybe` on: the count, and the context. Each round moves by a row; the table's
-- rows are enough rounds, and where they are used up there is no result.
pub count_from : ℕ → Mdcxt → ℕ → Mdcursor → Mdcursor → Outcome (ℕ × Mdcxt)
count_from zero cxt col_idx cursor next_maybe = fault
count_from (suc fuel) cxt col_idx cursor next_maybe =
    moved_if next_maybe (cursor_move_no_checks next_maybe 1) >>= λ next.
    (let read = md_get_column_value_as_cursor cxt next col_idx >>= λ end.
    (let rest = count_from fuel end.1 col_idx cursor next in
      if cursor_null end.0
      then rest
      else ok (difference (cursor_row end.0) (cursor_row cursor), end.1)) in
      at_end_of next >>= λ past.
      if past then (remaining cursor >>= λ count. ok (count, cxt)) else read)

-- The cursor, the count and the context. The table of `c` has its row count for the fuel.
abbrev pub rows_of : Mdcursor → ℕ
rows_of c = elim c.table_of [ none ↦ 0 | some t ↦ t.row_count ]

unfoldable pub md_get_column_value_as_range : Mdcxt → Mdcursor → ℕ → Outcome (Mdcursor × ℕ × Mdcxt)
unfolding count_from
md_get_column_value_as_range cxt c col_idx = do
  (cursor, cxt') ← md_get_column_value_as_cursor cxt c col_idx
  past ← at_end_of cursor
  if cursor_null cursor || past then ok (cursor, 0, cxt') else do
    (count, cxt'') ← count_from (rows_of c) cxt' col_idx cursor c
    ok (cursor, count, cxt'')
