-- ===== src/Tables/Valid.antt =====
-- `validate_tables` of src/dnmd/streams.c.
use dnmd.Base.{ℕ, zero, suc, ◌+◌, ◌-◌, bit_and}
use dnmd.Base.{List, [], ◌∷◌, Bool, false, not, ◌&&◌, ◌||◌, leb}
use dnmd.Base.{length, ltb, ◌==◌, ◌!=◌, if◌then◌else◌, Outcome, ok, failed, ◌>>=◌, ◌>>◌, guard}
use dnmd.Access.{create_cursor, create_access_context, read_column_data}
use dnmd.Context.{Mdcxt}
use dnmd.Schema.Details.{Mdtable}
use dnmd.Schema.Keys.{MdKeyInfo, get_table_keys, table_is_indirect_table}

abbrev pub mdc_uncompressed_table_heap : ℕ
mdc_uncompressed_table_heap = 0x00020000

-- The values of the key column in the row and the next one, in the order in which they have to be.
abbrev pub in_direction : Bool → ℕ → ℕ → ℕ × ℕ
in_direction descending row_value next_value =
    if descending then (next_value, row_value) else (row_value, next_value)

-- The loop over the keys of two rows. The contexts are created before the values are read.
unfoldable pub check_keys : Mdtable → ℕ → List MdKeyInfo → Outcome (Unit {0})
check_keys t r [] = ok tt
check_keys t r (k ∷ keys) =
    let rest = check_keys t r keys in
    do
      row_acxt ← create_access_context (create_cursor t r) k.index
      next_acxt ← create_access_context (create_cursor t (r + 1)) k.index
      row_value ← read_column_data row_acxt
      next_value ← read_column_data next_acxt
      let (first, second) = in_direction k.descending row_value next_value
      if ltb second first then failed else if ltb first second then ok tt else rest

-- The loop over the rows, `n` of them from `r` on.
unfoldable pub check_rows : ℕ → ℕ → Mdtable → List MdKeyInfo → Outcome (Unit {0})
check_rows zero r t keys = ok tt
check_rows (suc n) r t keys = do check_keys t r keys; check_rows n (r + 1) t keys

-- The body of the loop over the tables.
unfoldable pub validate_table : ℕ → Mdtable → Outcome (Unit {0})
validate_table id t = if not t.is_sorted || leb t.row_count 1 then ok tt else do
  keys ← get_table_keys id
  if length keys == 0 then ok tt else check_rows (t.row_count - 1) 1 t keys

unfoldable pub validate_from : ℕ → List Mdtable → Outcome (Unit {0})
validate_from id [] = ok tt
validate_from id (t ∷ tables) = do validate_table id t; validate_from (id + 1) tables

-- Whether an indirection table of the image has rows.
unfoldable pub has_indirect : ℕ → List Mdtable → Bool
has_indirect id [] = false
has_indirect id (t ∷ tables) =
    (table_is_indirect_table id && t.row_count != 0) || has_indirect (id + 1) tables

unfoldable pub validate_tables : Mdcxt → Outcome (Unit {0})
validate_tables cxt = do
  guard (
      bit_and cxt.context_flags mdc_uncompressed_table_heap != 0 || not (has_indirect 0 cxt.tables))
  validate_from 0 cxt.tables
