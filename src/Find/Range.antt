-- ===== src/Find/Range.antt =====
-- Finding all the rows that have a value: `md_find_range_from_cursor` of src/dnmd/query.c.
use dnmd.Base.{ℕ, zero, suc, ◌+◌, ◌-◌, ◌%◌, ◌^◌}
use dnmd.Base.{List, [], ◌∷◌, Option, none, some, Bool, false, not, ◌&&◌, ◌||◌}
use dnmd.Base.{◌==◌, ◌!=◌, if◌then◌else◌, Outcome, ok, failed, fault, ◌>>=◌}
use dnmd.Access.{Mdcursor, cursor_row}
use dnmd.Cursors.{cursor_move_no_checks, cursor_end}
use dnmd.Find.{FindCxt, create_find_context, compare_row, cursor_to_row_bytes, find_row_from_cursor}
use dnmd.Schema.Details.{Mdtable}
use dnmd.Schema.Keys.{MdKeyInfo, get_table_keys}
use dnmd.Search.{is_negative}
pub mod Extent
pub mod Whole

-- `md_range_result_t`, with the start and the count of the range.
pub data RangeResult : Type 0 where
  md_range_found : Mdcursor → ℕ → RangeResult
  md_range_not_found md_range_not_supported : RangeResult

abbrev pub minus_one : ℕ
minus_one = 2 ^ 32 - 1

-- The cursor after a move that may fail and whose result is not looked at.
abbrev pub moved_or_not : Outcome Mdcursor → Mdcursor → Mdcursor
moved_or_not move c = elim move [ ok c' ↦ c' | failed ↦ c | fault ↦ c ]

module _ (t : Mdtable) (fcxt : FindCxt) (key : ℕ) where
  -- `res` at the row of a cursor.
  abbrev pub res_at : Mdcursor → ℕ
  res_at c = compare_row fcxt t.contents.ptr key (cursor_to_row_bytes t (cursor_row c))

  -- A round of each loop after the move, with what the next rounds give.
  abbrev back_round : Mdcursor → Mdcursor → Outcome Mdcursor → Mdcursor
  back_round start rest (ok c) =
      if res_at c != 0 && not (is_negative (res_at c))
      then moved_or_not (cursor_move_no_checks c 1) c
      else rest
  back_round start rest failed = start
  back_round start rest fault = start

  abbrev forth_round : Mdcursor → Mdcursor → Outcome Mdcursor → Mdcursor
  forth_round end rest (ok c) = if cursor_end t c || is_negative (res_at c) then c else rest
  forth_round end rest failed = end
  forth_round end rest fault = end

  -- The two loops. Each round moves by a row, so that as many rounds as the table has rows, and one
  -- more, are enough.
  pub range_start : ℕ → Mdcursor → Mdcursor
  range_start zero start = start
  range_start (suc fuel) start =
      let move = cursor_move_no_checks start minus_one in
      let rest = range_start fuel (moved_or_not move start) in back_round start rest move

  pub range_end : ℕ → Mdcursor → Mdcursor
  range_end zero end = end
  range_end (suc fuel) end =
      let move = cursor_move_no_checks end 1 in
      let rest = range_end fuel (moved_or_not move end) in forth_round end rest move

  -- The range around a row that has the value.
  unfoldable pub range_around : Mdcursor → RangeResult
  unfolding range_start range_end
  range_around found =
      let start = range_start (t.row_count + 1) found in
      let end = range_end (t.row_count + 1) found in
      md_range_found start ((cursor_row end + 2 ^ 32 - cursor_row start) % 2 ^ 32)

-- The result for the row that `find_row_from_cursor` has found, or not.
unfoldable pub range_of : Mdtable → ℕ → Outcome (Mdcursor × ℕ) → Outcome RangeResult
range_of t idx failed = ok md_range_not_found
range_of t idx fault = fault
range_of t idx (ok (found, key)) = do
  fcxt ← create_find_context t idx
  ok (range_around t fcxt key found)

abbrev pub is_first_key : List MdKeyInfo → ℕ → Bool
is_first_key keys idx = elim keys [ [] ↦ false | k ∷ ks ↦ k.index == idx ]

-- A cursor without a table is read through a null pointer.
unfoldable pub md_find_range_from_cursor : Mdcursor → ℕ → ℕ → Outcome RangeResult
md_find_range_from_cursor begin idx value = elim begin.table_of [
  | none ↦ fault
  | some t ↦ if not t.is_sorted || t.is_adding_new_row then ok md_range_not_supported else do
    keys ← get_table_keys t.table_id
    if is_first_key keys idx
        then range_of t idx (find_row_from_cursor begin idx value)
        else ok md_range_not_supported
]
