-- ===== src/Pdb/Points/Runs.antt =====
-- A run on two sequence points of a method, the second one hidden, of the document in row 1.
use dnmd.Base.{◌+◌, ◌*◌, ◌≤◌, ◌≡◌, arith, refl}
use dnmd.Base.{[], ◌∷◌, true, false, ok}
use dnmd.Access.{Mdcursor, create_cursor, create_access_context, access_row, read_column_data}
use dnmd.Bytes.{Mdcdata, read_u16, read_le, read_sized, decompress_u32, decompress_onebyte}
use dnmd.Bytes.Check.{is_stream-IsStream}
use dnmd.Context.{Mdcxt}
use dnmd.Pdb.{
  mdbpr_success, Buffer, parse_counted, required_size, safe_add_size, safe_mul_size, in_buffer,
}
use dnmd.Pdb.Points.{
  SequencePoints, mdsp_sequence_point_record, mdsp_hidden_sequence_point_record, skip_record,
  num_records_from, skip_header, get_num_sequence_points, read_delta_columns, read_first_start,
  store_point, parse_point, parse_record, records_from, initial_document, before_end, parse_points,
  md_parse_sequence_points,
}
use dnmd.Pdb.Points.Rolling.{Rolling, md_parse_sequence_points-Rolling}
use dnmd.Pdb.Points.Whole.{md_parse_sequence_points-length}
use dnmd.Query.{target_of, get_column_target, md_get_column_value_as_cursor}
use dnmd.Samples.{context_of}
use dnmd.Schema.Details.{Mdtable}

abbrev documents : Mdtable
documents = record {
  contents = record { ptr = []; size = 0 };
  row_count = 1;
  row_size_bytes = 8;
  column_count = 4;
  is_sorted = false;
  is_adding_new_row = false;
  table_id = 0x30;
  initialized = true;
  column_details = [];
}

-- The row of a method whose document is the first one.
abbrev methods : Mdtable
methods = record {
  contents = record { ptr = 1 ∷ 0 ∷ 0 ∷ 0 ∷ []; size = 4 };
  row_count = 1;
  row_size_bytes = 4;
  column_count = 2;
  is_sorted = false;
  is_adding_new_row = false;
  table_id = 0x31;
  initialized = true;
  column_details = 0x300014 ∷ 0x80000212 ∷ [];
}

abbrev cxt : Mdcxt
cxt = context_of 0x30 (documents ∷ methods ∷ [])

abbrev method : Mdcursor
method = create_cursor methods 1

abbrev blob : Mdcdata
blob = record { ptr = 0 ∷ 0 ∷ 0 ∷ 5 ∷ 10 ∷ 1 ∷ 4 ∷ 0 ∷ 0 ∷ []; size = 9 }

abbrev buffer : Buffer
buffer = record { given = true; len = 112 }

abbrev points : SequencePoints
points = record {
  signature = 0;
  document = create_cursor documents 1;
  records = mdsp_sequence_point_record 0 0 5 10 1 ∷ mdsp_hidden_sequence_point_record 4 ∷ [];
}

parsed : md_parse_sequence_points cxt method blob buffer ≡ mdbpr_success points
unfolding md_parse_sequence_points before_end parse_points initial_document records_from
    parse_record parse_point store_point read_first_start read_delta_columns get_num_sequence_points
    skip_header num_records_from skip_record md_get_column_value_as_cursor get_column_target
    target_of create_access_context access_row read_column_data read_u16 read_le read_sized
    decompress_u32 decompress_onebyte parse_counted in_buffer required_size safe_add_size
    safe_mul_size
parsed = refl

md_parse_sequence_points-length_example :
    (get_num_sequence_points cxt method blob ≡ ok 2) × (true ≡ true) × (32 + 2 * 40 ≤ 112)
md_parse_sequence_points-length_example =
    md_parse_sequence_points-length cxt method blob buffer points (is_stream-IsStream blob refl)
      (omega arith) parsed

md_parse_sequence_points-Rolling_example : Rolling 0 points.records
md_parse_sequence_points-Rolling_example =
    md_parse_sequence_points-Rolling cxt method blob buffer points (is_stream-IsStream blob refl)
      (omega arith) parsed
