-- ===== src/Schema/Details.antt =====
-- `compute_row_offsets_size`, the widths of index columns, `initialize_table_details` and
-- `consume_table_rows` of src/dnmd/tables.c.
use dnmd.Base.{ℕ, ◌+◌, ◌-◌, ◌*◌, ◌/◌, ◌%◌, ◌^◌, bit_and, bit_or}
use dnmd.Base.{List, [], ◌∷◌, map, none, some, Bool, not, ◌&&◌}
use dnmd.Base.{get_elem?, ltb, ◌==◌, ◌!=◌, if◌then◌else◌, Outcome, ok, failed, fault, ◌>>=◌}
use dnmd.Bytes.{Mdcdata, advance_stream}
use dnmd.Coded.{coded_index_map, insert_coded_index}
use dnmd.Flags.{
  mdtc_constant, mdtc_idx_heap, mdtc_idx_table, mdtc_idx_coded, mdtc_b2, mdtc_b4, mdtc_comask,
  mdtc_timask, mdtc_hguid, mdtc_hstring, mdtc_hblob,
}
use dnmd.Ids.{mdtid_unused}
use dnmd.Schema.Kinds.{
  ColumnKind, constant, string, guid, blob, table, target, coded, kinds_of, table_column_counts,
}

-- `mdtable_t`. `initialized` is `cxt != NULL`.
pub record Mdtable : Type 0 where
  pub contents : Mdcdata
  pub row_count : ℕ
  pub row_size_bytes : ℕ
  pub column_count : ℕ
  pub is_sorted : Bool
  pub is_adding_new_row : Bool
  pub table_id : ℕ
  pub initialized : Bool
  pub column_details : List ℕ

-- The context flags of src/dnmd/internal.h that the layout depends on.
abbrev pub mdc_large_string_heap : ℕ
mdc_large_string_heap = 0x0001

abbrev pub mdc_large_guid_heap : ℕ
mdc_large_guid_heap = 0x0002

abbrev pub mdc_large_blob_heap : ℕ
mdc_large_blob_heap = 0x0004

abbrev pub mdc_minimal_delta : ℕ
mdc_minimal_delta = 0x00010000

-- `InsertOffset`, `ExtractOffset`, `InsertTable`, `ExtractTable`
abbrev pub insert_offset : ℕ → ℕ
insert_offset o = bit_and (o * 2 ^ 8 % 2 ^ 32) mdtc_comask

abbrev pub extract_offset : ℕ → ℕ
extract_offset o = bit_and o mdtc_comask / 2 ^ 8

abbrev pub insert_table : ℕ → ℕ
insert_table c = bit_and (c * 2 ^ 16 % 2 ^ 32) mdtc_timask

abbrev pub extract_table : ℕ → ℕ
extract_table c = bit_and c mdtc_timask / 2 ^ 16

-- `(col & mdtc_b2) ? 2 : 4`
abbrev pub column_width : ℕ → ℕ
column_width col = if bit_and col mdtc_b2 != 0 then 2 else 4

-- The loop over the columns from offset `c` on: the columns with their offsets, and the end.
unfoldable pub compute_row_offsets_size : ℕ → List ℕ → List ℕ × ℕ
compute_row_offsets_size c [] = ([], c)
compute_row_offsets_size c (col ∷ cols) =
    let placed = bit_or col (insert_offset c) in
    let (rest, size) = compute_row_offsets_size (c + column_width placed) cols in
    (placed ∷ rest, size)

-- The most rows of the tables of a coded index.
unfoldable pub most_rows : (ℕ → ℕ) → List ℕ → ℕ → ℕ
most_rows row_counts [] m = m
most_rows row_counts (t ∷ lookup) m =
    most_rows row_counts lookup
      (if t != mdtid_unused then (if ltb m (row_counts t) then row_counts t else m) else m)

abbrev pub narrow_or_wide : Bool → ℕ
narrow_or_wide narrow = if narrow then mdtc_b2 else mdtc_b4

-- Not in the map: a failed assertion of the source. Here such an index is taken for a wide one.
unfoldable pub compute_coded_index : Bool → (ℕ → ℕ) → ℕ → ℕ
compute_coded_index is_minimal_delta row_counts ci =
    bit_or (bit_or (insert_coded_index ci) mdtc_idx_coded) (elim (get_elem? coded_index_map ci) [
      | none ↦ mdtc_b4
      | some entry ↦ narrow_or_wide (
          ltb (most_rows row_counts entry.lookup 0) (2 ^ (16 - entry.bit_encoding_size))
          && not is_minimal_delta)
    ])

unfoldable pub compute_table_index : Bool → (ℕ → ℕ) → ℕ → ℕ
compute_table_index is_minimal_delta row_counts id =
    bit_or
      (bit_or (insert_table id)
        (narrow_or_wide (ltb (row_counts id) (2 ^ 16) && not is_minimal_delta)))
      mdtc_idx_table

unfoldable pub get_target_table : (ℕ → ℕ) → ℕ → ℕ → ℕ
get_target_table row_counts direct indirect = if row_counts indirect != 0 then indirect else direct

-- `string_index`, `guid_index` and `blob_index`
abbrev pub heap_index : ℕ → ℕ → ℕ → ℕ
heap_index context_flags heap large =
    bit_or (bit_or mdtc_idx_heap heap) (narrow_or_wide (bit_and context_flags large == 0))

-- The value that is assigned to a column.
unfoldable pub column_of : (ℕ → ℕ) → ℕ → ColumnKind → ℕ
column_of row_counts flags (constant width) =
    bit_or mdtc_constant (if width == 2 then mdtc_b2 else mdtc_b4)
column_of row_counts flags string = heap_index flags mdtc_hstring mdc_large_string_heap
column_of row_counts flags guid = heap_index flags mdtc_hguid mdc_large_guid_heap
column_of row_counts flags blob = heap_index flags mdtc_hblob mdc_large_blob_heap
column_of row_counts flags (table id) =
    compute_table_index (bit_and flags mdc_minimal_delta == mdc_minimal_delta) row_counts id
column_of row_counts flags (target direct indirect) =
    compute_table_index (bit_and flags mdc_minimal_delta == mdc_minimal_delta) row_counts
      (get_target_table row_counts direct indirect)
column_of row_counts flags (coded ci) =
    compute_coded_index (bit_and flags mdc_minimal_delta == mdc_minimal_delta) row_counts ci

-- An id past the end of an array is undefined behaviour in the source.
unfoldable pub get_table_column_count : ℕ → Outcome ℕ
get_table_column_count id = elim (get_elem? table_column_counts id) [ none ↦ fault | some n ↦ ok n ]

unfoldable pub initialize_table_details : (ℕ → ℕ) → ℕ → ℕ → Bool → Mdtable → Outcome Mdtable
initialize_table_details row_counts flags id is_sorted t =
    if row_counts id == 0 then failed else elim (kinds_of id) [
      | none ↦ failed
      | some kinds ↦ do
        count ← get_table_column_count id
        let (cols, size) = compute_row_offsets_size 0 (map (column_of row_counts flags) kinds)
        ok (record t {
          row_count = row_counts id;
          is_sorted = is_sorted;
          table_id = id % 256;
          column_details = cols;
          column_count = count;
          row_size_bytes = size % 256;
        })
    ]

-- The rows are the next bytes of the stream, which moves past them.
unfoldable pub consume_table_rows : Mdtable → Mdcdata → Outcome (Mdtable × Mdcdata)
consume_table_rows t s = if t.row_count == 0 then ok (t, s) else do
  let rows_len = t.row_size_bytes * t.row_count
  rest ← advance_stream s rows_len
  ok (record t { contents = record { ptr = s.ptr; size = rows_len } }, rest)
