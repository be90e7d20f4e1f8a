-- ===== src/Schema/Runs.antt =====
-- Runs of the layout of the tables of src/dnmd/tables.c.
use dnmd.Base.{
  ◌!=◌, ℕ, ◌≤◌, ◌≡◌, arith, refl, inl, inr, List, [], ◌∷◌, All, true, false, length, ok,
}
use dnmd.Schema.Complete.{initialize_table_details-Tiles}
use dnmd.Schema.Details.{
  Mdtable, compute_row_offsets_size, get_table_column_count, initialize_table_details,
}
use dnmd.Schema.Keys.{MdKeyInfo, get_table_keys, initialize_new_table_details}
use dnmd.Schema.Layout.{IsSized, SameKinds, Tiles, compute_row_offsets_size-Tiles}
use dnmd.Schema.New.{AreColumns, get_table_keys-AreColumns, initialize_new_table_details-Tiles}

abbrev pub no_table : Mdtable
no_table = record {
  contents = record { ptr = []; size = 0 };
  row_count = 0;
  row_size_bytes = 0;
  column_count = 0;
  is_sorted = false;
  is_adding_new_row = false;
  table_id = 0;
  initialized = false;
  column_details = [];
}

-- A two-byte constant, a wide string and a narrow blob.
abbrev three_columns : List ℕ
three_columns = 0x11 ∷ 0x20000022 ∷ 0x80000012 ∷ []

compute_row_offsets_size-Tiles_example :
    Tiles 0
      (compute_row_offsets_size 0 three_columns).0
      (compute_row_offsets_size 0 three_columns).1
    × SameKinds three_columns (compute_row_offsets_size 0 three_columns).0
    × (length (compute_row_offsets_size 0 three_columns).0 ≡ 3)
    × (6 ≤ (compute_row_offsets_size 0 three_columns).1)
    × ((compute_row_offsets_size 0 three_columns).1 ≤ 12)
    × All IsSized (compute_row_offsets_size 0 three_columns).0
compute_row_offsets_size-Tiles_example =
    compute_row_offsets_size-Tiles 0 three_columns
      ((inl refl, refl), ((inr refl, refl), ((inl refl, refl), tt))) (omega arith)

-- 70000 rows in each table.
abbrev many_rows : ℕ → ℕ
many_rows id = 70000

initialize_table_details-Tiles_example :
    (t' : Mdtable) × (initialize_table_details many_rows 1 6 true no_table ≡ ok t')
    × Tiles 0 t'.column_details t'.row_size_bytes
    × (length t'.column_details ≡ t'.column_count)
    × (get_table_column_count 6 ≡ ok t'.column_count)
    × (2 ≤ t'.row_size_bytes)
    × (t'.row_size_bytes ≤ 36)
    × (t'.row_count ≡ 70000)
    × (t'.table_id ≡ 6)
    × All IsSized t'.column_details
    × (t'.is_sorted ≡ true)
initialize_table_details-Tiles_example =
    initialize_table_details-Tiles many_rows 1 6 true no_table
      (omega arith, λ e. omega arith, λ e. omega arith, λ e. omega arith) (λ e. omega arith)

get_table_keys-AreColumns_example :
    (keys : List MdKeyInfo) × (count : ℕ) × (get_table_keys 0x32 ≡ ok keys)
    × (get_table_column_count 0x32 ≡ ok count)
    × AreColumns count keys
get_table_keys-AreColumns_example = get_table_keys-AreColumns 0x32 (omega arith)

initialize_new_table_details-Tiles_example :
    (t' : Mdtable) × (keys : List MdKeyInfo) × (initialize_new_table_details 0 [] 0x29 no_table
      ≡ ok t')
    × (get_table_keys 0x29 ≡ ok keys)
    × Tiles 0 t'.column_details t'.row_size_bytes
    × All IsSized t'.column_details
    × (length t'.column_details ≡ t'.column_count)
    × (t'.row_count ≡ 0)
    × (t'.table_id ≡ 0x29)
    × (t'.is_sorted ≡ (length keys != 0))
initialize_new_table_details-Tiles_example =
    initialize_new_table_details-Tiles 0 0x29 [] no_table
      (omega arith, λ e. omega arith, λ e. omega arith, λ e. omega arith)
