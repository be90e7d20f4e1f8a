-- ===== src/Pdb/Points.antt =====
-- Sequence points: `get_num_sequence_points` and `md_parse_sequence_points` of src/dnmd/pdb_blobs.c.
-- A number of type int64_t is its bit pattern.
use dnmd.Base.{ℕ, zero, suc, ◌+◌, ◌-◌, ◌%◌, ◌^◌, bit_or}
use dnmd.Base.{
  List, [], ◌∷◌, Option, none, some, Bool, true, false, not, ◌&&◌, ◌||◌, leb, ◌==◌, ◌!=◌,
  if◌then◌else◌,
}
use dnmd.Base.{Outcome, ok, failed, fault, ◌>>=◌, ◌>>◌, guard}
use dnmd.Access.{Mdcursor, cursor_row, create_cursor}
use dnmd.Bytes.{Mdcdata, decompress_u32, decompress_i32}
use dnmd.Coded.{create_token_type}
use dnmd.Context.{Mdcxt}
use dnmd.Cursors.{cursor_null, cursor_end}
use dnmd.Ids.{mdtid_document}
use dnmd.Pdb.{
  BlobResult, mdbpr_invalid_argument, mdbpr_fault, Buffer, parse_counted, or_max, uint32_max,
  skip_u32,
}
use dnmd.Schema.Details.{Mdtable}
use dnmd.Query.{md_get_column_value_as_cursor, md_token_to_cursor, type_to_table}
pub mod Count
pub mod Records
pub mod Rolling
mod Runs
pub mod Whole

-- `mdtMethodDebugInformation_Document`
abbrev pub document_column : ℕ
document_column = 0

-- A record of the count.
unfoldable pub skip_record : Bool → Mdcdata → Outcome Mdcdata
skip_record first_record s = do
  (il_offset, s1) ← decompress_u32 s
  if not first_record && il_offset == 0 then skip_u32 s1 else do
    (delta_lines, s2) ← decompress_u32 s1
    (delta_columns, s3) ← decompress_u32 s2
    if delta_lines != 0 || delta_columns != 0 then skip_u32 s3 >>= skip_u32 else ok s3

-- The loop of the count, whose iterations take a byte at least each.
pub num_records_from : ℕ → ℕ → Bool → Mdcdata → Outcome ℕ
num_records_from zero num_records first_record s = ok num_records
num_records_from (suc fuel) num_records first_record s =
    let rest = skip_record first_record s >>= num_records_from fuel (num_records + 1) false in
    if s.size == 0 then ok num_records else if num_records == uint32_max then failed else rest

-- The header of the count: the blob behind it.
unfoldable pub skip_header : Mdcxt → Mdcursor → Mdcdata → Outcome Mdcdata
skip_header cxt method_debug_information blob = do
  s ← skip_u32 blob
  (document, cxt') ← md_get_column_value_as_cursor cxt method_debug_information document_column
  if cursor_null document then skip_u32 s else ok s

unfoldable pub get_num_sequence_points : Mdcxt → Mdcursor → Mdcdata → Outcome ℕ
unfolding num_records_from
get_num_sequence_points cxt method_debug_information blob =
    or_max (skip_header cxt method_debug_information blob >>= λ s. num_records_from s.size 0 true s)

-- An entry of `records`, with the constructors for its `kind`.
pub data SequencePoint : Type 0 where
  mdsp_document_record : Mdcursor → SequencePoint
  mdsp_sequence_point_record :
      (rolling_il_offset delta_lines delta_columns rolling_start_line rolling_start_column : ℕ)
      → SequencePoint
  mdsp_hidden_sequence_point_record : (rolling_il_offset : ℕ) → SequencePoint

-- The running sums and `seen_non_hidden_sequence_point`.
pub record Running : Type 0 where
  pub running_il : ℕ
  pub running_line : ℕ
  pub running_col : ℕ
  pub seen : Bool

abbrev pub at_start : Running
at_start = record { running_il = 0; running_line = 0; running_col = 0; seen = false }

-- The conversion from int32_t to int64_t.
abbrev pub to_int64 : ℕ → ℕ
to_int64 raw = if leb (2 ^ 31) raw then raw + (2 ^ 64 - 2 ^ 32) else raw

unfoldable pub read_delta_columns : ℕ → Mdcdata → Outcome (ℕ × Mdcdata)
read_delta_columns delta_lines s =
    if delta_lines == 0
    then decompress_u32 s
    else do (raw, s') ← decompress_i32 s; ok (to_int64 raw, s')

-- The start of the first point that is not hidden, and of the next ones from their deltas.
unfoldable pub read_first_start : Running → Mdcdata → Outcome (Running × Mdcdata)
read_first_start r s = do
  (line, s1) ← decompress_u32 s
  (col, s2) ← decompress_u32 s1
  ok (record r { running_line = line; running_col = col; seen = true }, s2)

unfoldable pub read_next_start : Running → Mdcdata → Outcome (Running × Mdcdata)
read_next_start r s = do
  (line, s1) ← decompress_i32 s
  (col, s2) ← decompress_i32 s1
  let line' = (r.running_line + to_int64 line) % 2 ^ 64
  let col' = (r.running_col + to_int64 col) % 2 ^ 64
  ok (record r { running_line = line'; running_col = col' }, s2)

abbrev pub read_start : Running → Mdcdata → Outcome (Running × Mdcdata)
read_start r s = if not r.seen then read_first_start r s else read_next_start r s

abbrev pub document_token : ℕ → ℕ
document_token rid = bit_or (create_token_type mdtid_document) rid

unfoldable pub parse_document :
    Mdcxt → Running → Mdcdata → Outcome ((SequencePoint × Running) × Mdcdata)
parse_document cxt r s = do
  (document_row_id, s') ← decompress_u32 s
  document ← md_token_to_cursor (some cxt) (document_token document_row_id)
  ok ((mdsp_document_record document, r), s')

-- A point, hidden or not, with its deltas; the IL offset is in the running sum.
unfoldable pub store_point :
    ℕ → ℕ → Running → Mdcdata → Outcome ((SequencePoint × Running) × Mdcdata)
store_point delta_lines delta_columns r s =
    if delta_lines == 0 && delta_columns == 0
    then ok ((mdsp_hidden_sequence_point_record r.running_il, r), s)
    else do
      (r', s') ← read_start r s
      ok (
        (
          mdsp_sequence_point_record r'.running_il delta_lines delta_columns r'.running_line
              r'.running_col,
          r',
        ),
        s',
      )

-- A record that is not a document, after its IL offset.
unfoldable pub parse_point : ℕ → Running → Mdcdata → Outcome ((SequencePoint × Running) × Mdcdata)
parse_point il_offset r s = do
  guard (leb il_offset (uint32_max - r.running_il))
  let r' = record r { running_il = r.running_il + il_offset }
  (delta_lines, s1) ← decompress_u32 s
  (delta_columns, s2) ← read_delta_columns delta_lines s1
  store_point delta_lines delta_columns r' s2

unfoldable pub parse_record :
    Mdcxt → Bool → Running → Mdcdata → Outcome ((SequencePoint × Running) × Mdcdata)
parse_record cxt first_record r s = do
  (il_offset, s') ← decompress_u32 s
  if not first_record && il_offset == 0 then parse_document cxt r s' else parse_point il_offset r s'

-- The loop with `n` iterations left: the records, and what is left of the blob.
pub records_from : Mdcxt → ℕ → Bool → Running → Mdcdata → Outcome (List SequencePoint × Mdcdata)
records_from cxt zero first_record r s = ok ([], s)
records_from cxt (suc n) first_record r s =
    let rest = parse_record cxt first_record r s >>= λ one.
    records_from cxt n false one.0.1 one.1 >>= λ more. ok (one.0.0 ∷ more.0, more.1) in
    if s.size == 0 then ok ([], s) else rest

-- `md_sequence_points_t`
pub record SequencePoints : Type 0 where
  pub signature : ℕ
  pub document : Mdcursor
  pub records : List SequencePoint

abbrev pub is_end : Mdcursor → Bool
is_end c = elim c.table_of [ none ↦ false | some t ↦ cursor_end t c ]

-- The document that the header names, or a null cursor.
unfoldable pub named_document : Mdcxt → ℕ → Outcome Mdcursor
named_document cxt rid =
    if rid != 0
    then md_token_to_cursor (some cxt) (document_token rid)
    else type_to_table cxt mdtid_document >>= λ t. ok (create_cursor t 0)

-- The initial document: the column's, or the one that the header names.
unfoldable pub initial_document : Mdcxt → Mdcursor → Mdcdata → Outcome (Mdcursor × Mdcdata)
initial_document cxt document s =
    if not (cursor_null document)
    then (if is_end document then failed else ok (document, s))
    else do (document_rid, s') ← decompress_u32 s; c ← named_document cxt document_rid; ok (c, s')

-- The blob after its count has been found, and the buffer to be large enough.
unfoldable pub parse_points : Mdcxt → Mdcursor → Mdcdata → ℕ → Outcome SequencePoints
unfolding records_from
parse_points cxt method_debug_information blob num_records = do
  (signature, s) ← decompress_u32 blob
  (document, cxt') ← md_get_column_value_as_cursor cxt method_debug_information document_column
  (first_document, s1) ← initial_document cxt' document s
  (points, s2) ← records_from cxt' num_records true at_start s1
  guard (s2.size == 0)
  ok (record { signature = signature; document = first_document; records = points })

-- The check that a cursor is not at the end of its table.
unfoldable pub before_end {ℓ} :
    {A : Type ℓ} → Option Mdtable → Mdcursor → BlobResult A → BlobResult A
before_end none c result = mdbpr_fault
before_end (some t) c result = if cursor_end t c then mdbpr_invalid_argument else result

-- The sizes are those of `md_sequence_points_t` and its entries where pointers have 64 bits. `blob`
-- and `buffer_len` are not NULL. The id that the count may give a table is given again.
unfoldable pub md_parse_sequence_points :
    Mdcxt → Mdcursor → Mdcdata → Buffer → BlobResult SequencePoints
md_parse_sequence_points cxt method_debug_information blob buffer =
    if cursor_null method_debug_information
    then mdbpr_invalid_argument
    else before_end method_debug_information.table_of method_debug_information (
        parse_counted (get_num_sequence_points cxt method_debug_information blob) buffer 32 40
          (parse_points cxt method_debug_information blob))
