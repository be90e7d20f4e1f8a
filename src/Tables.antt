-- ===== src/Tables.antt =====
-- The table heap and the PDB stream of src/dnmd/streams.c: `initialize_tables` and `try_get_pdb`.
use dnmd.Base.{ℕ, zero, suc, ◌+◌, ◌-◌, ◌*◌, ◌/◌, ◌%◌, ◌^◌, bit_and, bit_or}
use dnmd.Base.{List, [], ◌∷◌, Option, none, some, Bool, true, false, not}
use dnmd.Base.{length, take, set, get_elem?, ltb, ◌==◌, ◌!=◌, if◌then◌else◌}
use dnmd.Base.{Outcome, ok, failed, fault, ◌>>=◌, ◌>>◌, guard}
use dnmd.Bytes.{Mdcdata, advance_stream, read_u8, read_u32, read_u64, count_set_bits}
use dnmd.Context.{Mdcxt, mdc_extra_data}
use dnmd.Ids.{mdtable_max_count}
use dnmd.Schema.Details.{Mdtable, initialize_table_details, consume_table_rows}
pub mod Counts
pub mod Header
pub mod Masks
pub mod Loaded
pub mod Body
pub mod Loop
pub mod Valid
pub mod Sorted
mod Runs

-- `md_pdb_t`
pub record MdPdb : Type 0 where
  pub pdb_id : List ℕ
  pub entry_point : ℕ
  pub referenced_type_system_tables : ℕ
  pub type_system_table_rows : List ℕ

-- `table_begin` and `pdb_end` are 4 bytes for each of the mask's bits after `from`; the test of the
-- source is whether `curr` has moved that far.
abbrev pub moved_by : Mdcdata → Mdcdata → ℕ → Bool
moved_by from curr n = length from.ptr - length curr.ptr == n

-- A body of the loop over the row counts.
unfoldable pub read_row_count : ℕ → Mdcdata → Outcome (ℕ × Mdcdata)
read_row_count valid s = if valid % 2 == 1 then read_u32 s else ok (0, s)

-- The loop, `n` counts from the mask `valid` on.
unfoldable pub read_row_counts : ℕ → ℕ → Mdcdata → Outcome (List ℕ × Mdcdata)
read_row_counts zero valid s = ok ([], s)
read_row_counts (suc n) valid s = do
  (count, s1) ← read_row_count valid s
  (counts, s2) ← read_row_counts n (valid / 2) s1
  ok (count ∷ counts, s2)

abbrev pub has_pdb : Mdcxt → Bool
has_pdb cxt = cxt.pdb.size != 0

unfoldable pub try_get_pdb : Mdcxt → Outcome MdPdb
try_get_pdb cxt = do
  guard (has_pdb cxt)
  s ← advance_stream cxt.pdb 20
  (entry_point, s1) ← read_u32 s
  (tables, s2) ← read_u64 s1
  (rows, s3) ← read_row_counts mdtable_max_count tables s2
  guard (moved_by s2 s3 (count_set_bits tables * 4))
  ok (record {
    pdb_id = take 20 cxt.pdb.ptr;
    entry_point = entry_point;
    referenced_type_system_tables = tables;
    type_system_table_rows = rows;
  })

-- `row_counts[i] += pdb.type_system_table_rows[i]` of 32-bit counts.
unfoldable pub merge_rows : List ℕ → List ℕ → List ℕ
merge_rows [] rows = []
merge_rows (c ∷ counts) [] = c ∷ counts
merge_rows (c ∷ counts) (r ∷ rows) = (c + r) % 2 ^ 32 ∷ merge_rows counts rows

-- The row counts with those of the PDB stream, if there is one.
unfoldable pub merge_pdb : Mdcxt → List ℕ → Outcome (List ℕ)
merge_pdb cxt counts = elim (try_get_pdb cxt) [
  | ok pdb ↦ ok (merge_rows counts pdb.type_system_table_rows)
  | failed ↦ if cxt.pdb.size != 0 then failed else ok counts
  | fault ↦ fault
]

abbrev pub count_at : List ℕ → ℕ → ℕ
count_at counts i = elim (get_elem? counts i) [ none ↦ 0 | some c ↦ c ]

-- A body of the loop over the tables, at `&cxt->tables[i]`. An index past the arrays is undefined
-- behaviour.
unfoldable pub initialize_entry :
    List ℕ
    → ℕ
    → ℕ
    → Bool
    → List Mdtable
    → Mdcdata
    → Option Mdtable
    → Outcome (List Mdtable × Mdcdata)
initialize_entry counts flags i is_sorted tables s none = fault
initialize_entry counts flags i is_sorted tables s (some t) = do
  t1 ← initialize_table_details (count_at counts) flags i is_sorted t
  (t2, s1) ← consume_table_rows t1 s
  ok (set tables i (record t2 { initialized = true }), s1)

abbrev pub initialize_table :
    List ℕ → ℕ → ℕ → Bool → List Mdtable → Mdcdata → Outcome (List Mdtable × Mdcdata)
initialize_table counts flags i is_sorted tables s =
    initialize_entry counts flags i is_sorted tables s (get_elem? tables i)

abbrev pub initialize_valid :
    List ℕ → ℕ → ℕ → ℕ → ℕ → List Mdtable → Mdcdata → Outcome (List Mdtable × Mdcdata)
initialize_valid counts flags i valid sorted tables s =
    if valid % 2 == 1
    then initialize_table counts flags i (sorted % 2 == 1) tables s
    else ok (tables, s)

-- The loop over the tables. The mask has at most 64 bits, so 64 turns end it.
unfoldable pub initialize_from :
    ℕ → List ℕ → ℕ → ℕ → ℕ → ℕ → List Mdtable → Mdcdata → Outcome (List Mdtable × Mdcdata)
initialize_from zero counts flags i valid sorted tables s = ok (tables, s)
initialize_from (suc n) counts flags i valid sorted tables s =
    if valid == 0 then ok (tables, s) else do
      (tables', s') ← initialize_valid counts flags i valid sorted tables s
      initialize_from n counts flags (i + 1) (valid / 2) (sorted / 2) tables' s'

-- The extra 4-byte integer after the row counts.
abbrev pub skip_extra_data : ℕ → Mdcdata → Outcome Mdcdata
skip_extra_data flags s = if bit_and flags mdc_extra_data != 0 then advance_stream s 4 else ok s

-- From the masks on: the row counts, the PDB stream and the tables.
unfoldable pub initialize_counted : Mdcxt → ℕ → ℕ → Mdcdata → Outcome Mdcxt
initialize_counted cxt valid_tables sorted_tables s = do
  (row_counts, s1) ← read_row_counts mdtable_max_count valid_tables s
  s2 ← skip_extra_data cxt.context_flags s1
  guard (moved_by s s2 (count_set_bits valid_tables * 4))
  merged ← merge_pdb cxt row_counts
  (tables, _) ←
      initialize_from 64 merged cxt.context_flags 0 valid_tables sorted_tables cxt.tables s2
  ok (record cxt { tables = tables })

unfoldable pub initialize_tables : Mdcxt → Outcome Mdcxt
initialize_tables cxt = if cxt.tables_heap.size == 0 then failed else do
  s ← advance_stream cxt.tables_heap 4
  (maj, s1) ← read_u8 s
  (min, s2) ← read_u8 s1
  (heap_sizes, s3) ← read_u8 s2
  (reserved, s4) ← read_u8 s3
  (valid_tables, s5) ← read_u64 s4
  (sorted_tables, s6) ← read_u64 s5
  initialize_counted (record cxt { context_flags = bit_or cxt.context_flags heap_sizes })
      valid_tables sorted_tables s6
