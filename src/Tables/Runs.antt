-- ===== src/Tables/Runs.antt =====
-- Runs of `initialize_tables` and `validate_tables` of src/dnmd/streams.c on a heap with one Module
-- row.
use dnmd.Base.{ℕ, zero, suc, ◌≡◌, arith, refl}
use dnmd.Base.{List, [], ◌∷◌, ◌++◌, false, length, Outcome, ok, failed, fault}
use dnmd.Base.{lt_wf}
use dnmd.Bytes.{
  Mdcdata, advance_stream, read_u8, read_u32, read_u64, read_sized, read_le, count_set_bits,
}
use dnmd.Coded.{coded_index_map}
use dnmd.Bytes.Check.{is_stream-IsStream}
use dnmd.Context.{Mdcxt}
use dnmd.Schema.Details.{
  Mdtable, initialize_table_details, get_table_column_count, column_of, compute_coded_index,
  compute_row_offsets_size, compute_table_index, consume_table_rows, get_target_table, most_rows,
}
use dnmd.Schema.Kinds.{kinds_of, column_kinds, table_column_counts}
use dnmd.Tables.{
  read_row_count, read_row_counts, initialize_tables, initialize_counted, initialize_from,
  initialize_entry, merge_pdb, merge_rows, try_get_pdb,
}
use native.Mathlib.Bridge.{IsLe}
use native.Mathlib.Decide.{dec_le, dec_lt}
use dnmd.Tables.Counts.{counted, read_row_counts-counted}
use dnmd.Tables.Header.{from_header, sized, initialize_tables-from_header}
use dnmd.Bytes.Count.{ones}
use dnmd.Tables.Counts.{after, counts_of}
use dnmd.Tables.Loop.Whole.{LoadedFrom, with_sizes, behind_header, initialize_tables-LoadedFrom}
use dnmd.Tables.Masks.{initialize_tables_extra_data, initialize_tables_unknown}

abbrev stream : List ℕ → Mdcdata
stream d = record { ptr = d; size = length d }

abbrev no_table : Mdtable
no_table = record {
  contents = stream [];
  row_count = 0;
  row_size_bytes = 0;
  column_count = 0;
  is_sorted = false;
  is_adding_new_row = false;
  table_id = 0;
  initialized = false;
  column_details = [];
}

abbrev copies : ℕ → List Mdtable
copies zero = []
copies (suc n) = no_table ∷ copies n

-- The header with its heap sizes, and the masks with a last byte of the first.
abbrev header : ℕ → ℕ → List ℕ
header sizes last =
    0 ∷ 0 ∷ 0 ∷ 0 ∷ 2 ∷ 0 ∷ sizes ∷ 1 ∷ 1 ∷ 0 ∷ 0 ∷ 0 ∷ 0 ∷ 0 ∷ 0 ∷ last ∷ 0 ∷ 0 ∷ 0 ∷ 0 ∷ 0 ∷ 0 ∷ 0
    ∷ 0 ∷ []

-- A count of one row, and the row.
abbrev one_row : List ℕ
one_row = 1 ∷ 0 ∷ 0 ∷ 0 ∷ 0 ∷ 0 ∷ 7 ∷ 0 ∷ 1 ∷ 0 ∷ 0 ∷ 0 ∷ 0 ∷ 0 ∷ []

abbrev image : ℕ → ℕ → Mdcxt
image sizes last = record {
  context_flags = 0;
  strings_heap = stream [];
  guid_heap = stream [];
  blob_heap = stream [];
  user_string_heap = stream [];
  tables_heap = stream (header sizes last ++ one_row);
  pdb = stream [];
  tables = copies 56;
}

abbrev one_module : Mdcxt
one_module = image 0 0

read_row_counts-counted_example :
    read_row_counts 3 5 (stream one_row) ≡ counted 3 5 (stream one_row)
read_row_counts-counted_example =
    read_row_counts-counted 3 5 (stream one_row) (is_stream-IsStream (stream one_row) refl)

initialize_tables-from_header_example :
    initialize_tables one_module ≡ sized one_module.tables_heap 24 (from_header one_module)
initialize_tables-from_header_example =
    initialize_tables-from_header one_module (is_stream-IsStream one_module.tables_heap refl)

initialize_tables_extra_data_example : initialize_tables (image 0x40 0) ≡ failed
initialize_tables_extra_data_example =
    initialize_tables_extra_data (image 0x40 0) (is_stream-IsStream (image 0x40 0).tables_heap refl)
      (omega arith) (λ e. omega arith)

initialize_tables_unknown_example : initialize_tables (image 0 1) ≡ failed
initialize_tables_unknown_example =
    initialize_tables_unknown (image 0 1) (is_stream-IsStream (image 0 1).tables_heap refl)
      (omega arith) (omega arith) refl

-- The context after the call.
abbrev after_call : Outcome Mdcxt → Mdcxt
after_call (ok cxt) = cxt
after_call failed = one_module
after_call fault = one_module

initialize_tables-LoadedFrom_example :
    LoadedFrom
      (with_sizes one_module)
      1
      0
      (counts_of 56 1 (behind_header one_module).ptr)
      (after (behind_header one_module) 4)
      (after_call (initialize_tables one_module))
unfolding initialize_tables advance_stream read_u8 read_sized read_u64 initialize_counted
    read_row_counts read_row_count read_u32 count_set_bits merge_pdb try_get_pdb initialize_from
    initialize_entry initialize_table_details kinds_of get_table_column_count table_column_counts
    lt_wf read_le coded_index_map column_of compute_coded_index compute_row_offsets_size
    compute_table_index consume_table_rows get_target_table most_rows column_kinds merge_rows IsLe
    dec_le dec_lt ones
initialize_tables-LoadedFrom_example =
    initialize_tables-LoadedFrom one_module (after_call (initialize_tables one_module))
      (is_stream-IsStream one_module.tables_heap refl) (omega arith) refl refl
