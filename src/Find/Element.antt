-- ===== src/Find/Element.antt =====
-- The row whose list holds a row: `find_range_element` of src/dnmd/query.c, and the functions that
-- call it. The context is that of the cursor's table.
use dnmd.Base.{ℕ, zero, suc, ◌+◌, ◌-◌, ◌%◌, ◌^◌}
use dnmd.Base.{
  Option, none, some, Bool, true, false, ◌||◌, ◌==◌, get_elem?, if◌then◌else◌, Outcome, ok, failed,
  fault, ◌>>=◌, guard, ◌>>◌,
}
use dnmd.Access.{Mdcursor, cursor_row, create_cursor}
use dnmd.Coded.{rid_from_token}
use dnmd.Context.{Mdcxt}
use dnmd.Cursors.{cursor_move_no_checks, cursor_end}
use dnmd.Find.{FindCxt, create_find_context, compare_row, find_row_from_cursor}
use dnmd.Ids.{
  mdtid_field, mdtid_method_def, mdtid_param, mdtid_event, mdtid_property, mdtid_local_variable,
  mdtid_local_constant, mdtid_type_def, mdtid_event_map, mdtid_property_map, mdtid_local_scope,
}
use dnmd.Query.{
  type_to_table, md_create_cursor, md_cursor_to_token, md_get_column_value_as_cursor,
  md_get_column_value_as_token,
}
use dnmd.Schema.Details.{Mdtable, extract_table}
use dnmd.Schema.Keys.{table_is_indirect_table}
use dnmd.Search.{is_negative, mdtable_bsearch_closest}
pub mod Owner
mod Runs

-- The first `switch`: the table and the column with the lists of rows of a table.
unfoldable pub list_column : ℕ → Option (ℕ × ℕ)
list_column table_id =
    if table_id == mdtid_field
    then some (mdtid_type_def, 4)
    else if table_id == mdtid_method_def
    then some (mdtid_type_def, 5)
    else if table_id == mdtid_param
    then some (mdtid_method_def, 5)
    else if table_id == mdtid_event
    then some (mdtid_event_map, 1)
    else if table_id == mdtid_property
    then some (mdtid_property_map, 1)
    else if table_id == mdtid_local_variable
    then some (mdtid_local_scope, 2)
    else if table_id == mdtid_local_constant
    then some (mdtid_local_scope, 3)
    else none

abbrev pub column_at : Mdtable → ℕ → Outcome ℕ
column_at t idx = elim (get_elem? t.column_details idx) [ none ↦ fault | some col ↦ ok col ]

-- The row of the entry for a row in an indirection table.
unfoldable pub indirect_row : Mdcxt → ℕ → ℕ → Outcome ℕ
indirect_row cxt indir_table_id row = do
  (indir_table_cursor, count) ← md_create_cursor (some cxt) indir_table_id
  (indir_row, value) ← find_row_from_cursor indir_table_cursor 0 row
  ok (cursor_row indir_row)

-- The row that the lists hold for a row: its own, or that of its entry.
unfoldable pub listed_row : Mdcxt → ℕ → ℕ → Outcome ℕ
listed_row cxt col row =
    if table_is_indirect_table (extract_table col)
    then indirect_row cxt (extract_table col) row
    else ok row

-- The next row and the token that its column holds.
unfoldable pub next_token : ℕ → Mdcursor → Outcome (Mdcursor × ℕ)
next_token tgt_col pos = do
  tmp ← cursor_move_no_checks pos 1
  tmp_tk ← md_get_column_value_as_token tmp tgt_col
  ok (tmp, tmp_tk)

-- A round of the loop over a run of rows with the same value, with what the next rounds do.
abbrev pub after_next :
    ℕ → Mdcursor → (Mdcursor → Outcome Mdcursor) → Outcome (Mdcursor × ℕ) → Outcome Mdcursor
after_next row pos rest failed = ok pos
after_next row pos rest fault = fault
after_next row pos rest (ok (tmp, tmp_tk)) =
    if rid_from_token tmp_tk == row then rest tmp else ok pos

-- The loop from `pos` on. Each round moves by a row.
pub last_from : ℕ → ℕ → ℕ → Mdcursor → Outcome Mdcursor
last_from zero tgt_col row pos = ok pos
last_from (suc fuel) tgt_col row pos =
    after_next row pos (last_from fuel tgt_col row) (next_token tgt_col pos)

-- The row for the last comparison and the row of the search.
unfoldable pub row_for : Mdtable → ℕ → ℕ → ℕ × ℕ → Outcome Mdcursor
unfolding last_from
row_for tgt_table tgt_col row (last_cmp, found_row) =
    if is_negative last_cmp
    then ok (create_cursor tgt_table ((found_row + 2 ^ 32 - 1) % 2 ^ 32))
    else if last_cmp == 0
    then last_from (tgt_table.row_count + 1) tgt_col row (create_cursor tgt_table found_row)
    else ok (create_cursor tgt_table found_row)

-- The search of the target table, whose rows start at the address 0.
unfoldable pub find_lists : Mdtable → ℕ → ℕ → Outcome Mdcursor
find_lists tgt_table tgt_col row = do
  fcxt ← create_find_context tgt_table tgt_col
  row_for tgt_table tgt_col row (
      mdtable_bsearch_closest (compare_row fcxt tgt_table.contents.ptr row) tgt_table.row_size_bytes
        0 tgt_table.row_count)

-- The last `switch`: the owner itself, or the parent that its map names.
unfoldable pub owner_of : Mdcxt → ℕ → Mdcursor → Outcome (Mdcursor × Mdcxt)
owner_of cxt table_id pos =
    if table_id == mdtid_event || table_id == mdtid_property
    then md_get_column_value_as_cursor cxt pos 0
    else ok (pos, cxt)

-- The search for a row of the table `table_id`, among the lists that the first `switch` names.
unfoldable pub element_of : Mdcxt → ℕ → ℕ → Option (ℕ × ℕ) → Outcome (Mdcursor × Mdcxt)
element_of cxt table_id element_row none = failed
element_of cxt table_id element_row (some (tgt_table_id, tgt_col)) = do
  tgt_table ← type_to_table cxt tgt_table_id
  col ← column_at tgt_table tgt_col
  row ← listed_row cxt col element_row
  pos ← find_lists tgt_table tgt_col row
  owner_of cxt table_id pos

-- The cursor and the context.
unfoldable pub find_range_element : Mdcxt → Mdcursor → Outcome (Mdcursor × Mdcxt)
find_range_element cxt element = elim element.table_of [
  | none ↦ failed
  | some t ↦ element_of cxt t.table_id (cursor_row element) (list_column t.table_id)
]

-- The token is set whether or not the cursor is one of a row or the end.
unfoldable pub md_find_token_of_range_element : Mdcxt → Mdcursor → Outcome ℕ
md_find_token_of_range_element cxt element = do
  (cursor, cxt') ← find_range_element cxt element
  guard ((md_cursor_to_token cursor).1)
  ok ((md_cursor_to_token cursor).0)

unfoldable pub md_find_cursor_of_range_element : Mdcxt → Mdcursor → Outcome (Mdcursor × Mdcxt)
md_find_cursor_of_range_element cxt element = find_range_element cxt element

-- The end of the table that an indirection table stands for.
unfoldable pub end_of_target : Mdcxt → Mdtable → Outcome (Mdcursor × Mdcxt)
end_of_target cxt t = do
  col ← column_at t 0
  tgt_table ← type_to_table cxt (extract_table col)
  ok (create_cursor tgt_table ((tgt_table.row_count + 1) % 2 ^ 32), cxt)

unfoldable pub md_resolve_indirect_cursor : Mdcxt → Mdcursor → Outcome (Mdcursor × Mdcxt)
md_resolve_indirect_cursor cxt c = elim c.table_of [
  | none ↦ failed
  | some t ↦
      if table_is_indirect_table t.table_id
      then (if cursor_end t c then end_of_target cxt t else md_get_column_value_as_cursor cxt c 0)
      else ok (c, cxt)
]
