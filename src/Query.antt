-- ===== src/Query.antt =====
-- Tokens, cursors and the values of columns: src/dnmd/query.c. The context that the source takes
-- from `table->cxt` is an argument.
use dnmd.Base.{ℕ, ◌+◌, ◌%◌, ◌^◌, bit_and, bit_or}
use dnmd.Base.{List, [], ◌∷◌, Option, none, some, Bool, true, ◌&&◌, ◌||◌}
use dnmd.Base.{
  set, get_elem?, ltb, leb, ◌==◌, ◌!=◌, if◌then◌else◌, Outcome, ok, failed, fault, ◌>>=◌, ◌>>◌,
  guard,
}
use dnmd.Access.{Mdcursor, cursor_row, create_cursor, create_access_context, read_column_data}
use dnmd.Bytes.{Mdcdata}
use dnmd.Coded.{rid_from_token, extract_token_type, create_token_type, decompose_coded_index}
use dnmd.Context.{Mdcxt}
use dnmd.Flags.{
  mdtc_constant, mdtc_idx_heap, mdtc_idx_table, mdtc_idx_coded, mdtc_hmask, mdtc_hguid,
  mdtc_hstring, mdtc_hus, mdtc_hblob,
}
use dnmd.Heaps.{Mduserstring, try_get_string, try_get_user_string, try_get_blob, try_get_guid}
use dnmd.Ids.{mdtable_max_count}
use dnmd.Schema.Details.{Mdtable, extract_table}
pub mod Lists
pub mod Many
mod Runs
pub mod Tokens

-- `&cxt->tables[table_id]`
abbrev pub type_to_table : Mdcxt → ℕ → Outcome Mdtable
type_to_table cxt table_id = elim (get_elem? cxt.tables table_id) [ none ↦ fault | some t ↦ ok t ]

-- A handle that has no context is `none`.
unfoldable pub md_token_to_cursor : Option Mdcxt → ℕ → Outcome Mdcursor
md_token_to_cursor none tk = failed
md_token_to_cursor (some cxt) tk =
    if leb mdtable_max_count (extract_token_type tk) then failed else do
      table ← type_to_table cxt (extract_token_type tk)
      let row = rid_from_token tk
      if row == 0 || ltb table.row_count row then failed else ok (create_cursor table row)

-- The cursor and the row count. `count` is not NULL.
unfoldable pub md_create_cursor : Option Mdcxt → ℕ → Outcome (Mdcursor × ℕ)
md_create_cursor handle table_id = do
  c ← md_token_to_cursor handle (bit_or (create_token_type table_id) 1)
  elim c.table_of [ none ↦ fault | some t ↦ ok (c, t.row_count) ]

-- `*tk`, which is set in either case, and the value returned. `mdTokenNil` is 0.
unfoldable pub md_cursor_to_token : Mdcursor → ℕ × Bool
md_cursor_to_token c = elim c.table_of [
  | none ↦ (0, true)
  | some t ↦
      let row = rid_from_token (cursor_row c) in
      (bit_or (create_token_type t.table_id) row, leb row ((t.row_count + 1) % 2 ^ 32))
]

-- The table and the row that the raw value of an index column stands for.
unfoldable pub target_of : ℕ → ℕ → Outcome (ℕ × ℕ)
target_of col raw =
    if bit_and col mdtc_idx_table != 0
    then ok (extract_table col, rid_from_token raw)
    else decompose_coded_index raw col

-- The part of `get_column_value_as_token_or_cursor` that both results share.
unfoldable pub get_column_target : Mdcursor → ℕ → Outcome (ℕ × ℕ)
get_column_target c col_idx = do
  acxt ← create_access_context c col_idx
  guard (bit_and acxt.col_details (bit_or mdtc_idx_table mdtc_idx_coded) != 0)
  raw ← read_column_data acxt
  (table_id, table_row) ← target_of acxt.col_details raw
  guard (ltb table_id mdtable_max_count)
  ok (table_id, table_row)

unfoldable pub md_get_column_value_as_token : Mdcursor → ℕ → Outcome ℕ
md_get_column_value_as_token c col_idx = do
  (table_id, table_row) ← get_column_target c col_idx
  ok (bit_or (create_token_type table_id) table_row)

-- A table without an id is given the one that it is looked up by.
abbrev pub with_id : Mdtable → ℕ → Mdtable
with_id t table_id =
    if t.table_id == 0 && table_id != 0 then record t { table_id = table_id } else t

-- The cursor and the context, whose table may have been given its id.
unfoldable pub md_get_column_value_as_cursor : Mdcxt → Mdcursor → ℕ → Outcome (Mdcursor × Mdcxt)
md_get_column_value_as_cursor cxt c col_idx = do
  (table_id, table_row) ← get_column_target c col_idx
  table ← type_to_table cxt table_id
  guard (leb table_row ((table.row_count + 1) % 2 ^ 32))
  let table' = with_id table table_id
  ok (create_cursor table' table_row, record cxt { tables = set cxt.tables table_id table' })

-- The start of the other readers: the value of a column of the kind `flag`.
unfoldable pub read_column_of_kind : Mdcursor → ℕ → ℕ → Outcome ℕ
read_column_of_kind c col_idx flag = do
  acxt ← create_access_context c col_idx
  guard (bit_and acxt.col_details flag != 0)
  read_column_data acxt

unfoldable pub md_get_column_value_as_constant : Mdcursor → ℕ → Outcome ℕ
unfolding read_column_of_kind
md_get_column_value_as_constant c col_idx = read_column_of_kind c col_idx mdtc_constant

unfoldable pub get_heap_by_id : Mdcxt → ℕ → Option Mdcdata
get_heap_by_id cxt heap_id =
    if heap_id == mdtc_hblob
    then some cxt.blob_heap
    else if heap_id == mdtc_hguid
    then some cxt.guid_heap
    else if heap_id == mdtc_hstring
    then some cxt.strings_heap
    else if heap_id == mdtc_hus
    then some cxt.user_string_heap
    else none

unfoldable pub get_column_value_as_heap_offset : Mdcxt → Mdcursor → ℕ → Outcome ℕ
get_column_value_as_heap_offset cxt c col_idx = do
  acxt ← create_access_context c col_idx
  guard (bit_and acxt.col_details mdtc_idx_heap != 0)
  elim (get_heap_by_id cxt (bit_and acxt.col_details mdtc_hmask)) [
    | none ↦ failed
    | some heap ↦ read_column_data acxt
  ]

unfoldable pub md_get_column_value_as_utf8 : Mdcxt → Mdcursor → ℕ → Outcome (List ℕ)
md_get_column_value_as_utf8 cxt c col_idx = do
  offset ← read_column_of_kind c col_idx mdtc_hstring
  try_get_string cxt offset

unfoldable pub md_get_column_value_as_userstring : Mdcxt → Mdcursor → ℕ → Outcome Mduserstring
md_get_column_value_as_userstring cxt c col_idx = do
  offset ← read_column_of_kind c col_idx mdtc_hus
  (string, next_offset) ← try_get_user_string cxt offset
  ok string

unfoldable pub md_get_column_value_as_blob : Mdcxt → Mdcursor → ℕ → Outcome Mdcdata
md_get_column_value_as_blob cxt c col_idx = do
  offset ← read_column_of_kind c col_idx mdtc_hblob
  try_get_blob cxt offset

unfoldable pub md_get_column_value_as_guid : Mdcxt → Mdcursor → ℕ → Outcome (List ℕ)
md_get_column_value_as_guid cxt c col_idx = do
  offset ← read_column_of_kind c col_idx mdtc_hguid
  try_get_guid cxt offset

-- The loop of `md_get_column_values_raw` from the column `i` on. Where `values_to_get` is false the
-- value stays as it is.
values_raw_from : Mdcursor → ℕ → List Bool → List ℕ → Outcome (List ℕ)
values_raw_from c i [] values_raw = ok values_raw
values_raw_from c i (get ∷ values_to_get) [] = fault
values_raw_from c i (get ∷ values_to_get) (old ∷ values_raw) = do
  value ← (if get then create_access_context c i >>= read_column_data else ok old)
  rest ← values_raw_from c (i + 1) values_to_get values_raw
  ok (value ∷ rest)

-- The arrays have the same length, so that they are not NULL where it is not 0.
unfoldable pub md_get_column_values_raw : Mdcursor → List Bool → List ℕ → Outcome (List ℕ)
unfolding values_raw_from
md_get_column_values_raw c values_to_get values_raw = values_raw_from c 0 values_to_get values_raw
