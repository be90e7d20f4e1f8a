-- ===== src/Schema/Complete.antt =====
-- Every table id but the three reserved ones is laid out.
use dnmd.Base.{ℕ, suc, ◌-◌, ◌/◌, ◌%◌, ◌^◌, ◌≤◌, ◌<◌, ◌≡◌, arith, refl, ap, ◌∙◌, bit_or, ◌≢◌}
use dnmd.Base.{
  List, [], ◌∷◌, map, Bool, true, false, length, All, ◌!=◌, ◌==◌, leb, ltb, ◌&&◌, ◌||◌, Option,
  none, some, get_elem?, ok, Bool-cases, inl, inr, not,
}
use dnmd.Base.{all_below, all_below_sound}
use dnmd.Coded.{CodedIndexEntry, coded_index_map, insert_coded_index}
use dnmd.Flags.{mdtc_b4, mdtc_idx_coded, mdtc_idx_table}
use dnmd.Schema.Kinds.{
  ColumnKind, constant, string, guid, blob, table, target, coded, kinds_of, table_column_counts,
}
use dnmd.Schema.Details.{
  Mdtable, most_rows, column_of, compute_table_index, compute_coded_index, get_target_table,
  narrow_or_wide, insert_table, compute_row_offsets_size, get_table_column_count,
  initialize_table_details,
}
use dnmd.Schema.Layout.{IsFresh, IsSized, Tiles, compute_row_offsets_size-Tiles}

is_fresh : ℕ → Bool
is_fresh col = (col / 2 ^ 4 % 4 == 1 || col / 2 ^ 4 % 4 == 2) && col / 2 ^ 8 % 2 ^ 8 == 0

table_bits : ℕ → Bool → ℕ
table_bits id narrow = bit_or (bit_or (insert_table id) (narrow_or_wide narrow)) mdtc_idx_table

coded_bits : ℕ → Bool → ℕ
coded_bits ci narrow =
    bit_or (bit_or (insert_coded_index ci) mdtc_idx_coded) (narrow_or_wide narrow)

is_fresh_table : ℕ → Bool
is_fresh_table id = is_fresh (table_bits id true) && is_fresh (table_bits id false)

-- Whatever the widths of a column turn out to be, no offset is in it.
is_fresh_kind : ColumnKind → Bool
is_fresh_kind (constant width) = true
is_fresh_kind string = true
is_fresh_kind guid = true
is_fresh_kind blob = true
is_fresh_kind (table id) = is_fresh_table id
is_fresh_kind (target direct indirect) = is_fresh_table direct && is_fresh_table indirect
is_fresh_kind (coded ci) = is_fresh (coded_bits ci true) && is_fresh (coded_bits ci false)

all_fresh : List ColumnKind → Bool
all_fresh [] = true
all_fresh (k ∷ ks) = is_fresh_kind k && all_fresh ks

-- What holds of the row of a table: the number of its columns is the one in the table of counts.
check_row : ℕ → Option (List ColumnKind) → Option ℕ → Bool
check_row id none count = id == 0x2d || id == 0x2e || id == 0x2f
check_row id (some kinds) none = false
check_row id (some kinds) (some count) =
    all_fresh kinds && length kinds == count && leb count 9 && leb 1 count

is_laid_out : ℕ → Bool
is_laid_out id = check_row id (kinds_of id) (get_elem? table_column_counts id)

laid_out_table : all_below 56 is_laid_out ≡ true
unfolding all_below is_laid_out check_row all_fresh is_fresh_kind is_fresh_table is_fresh table_bits
    coded_bits kinds_of table_column_counts
laid_out_table = refl

module _ (rc : ℕ → ℕ) where
  table-IsFresh :
      (id : ℕ) (minimal : Bool)
      → is_fresh_table id ≡ true
      → IsFresh (compute_table_index minimal rc id)
  unfolding compute_table_index is_fresh_table table_bits is_fresh
  table-IsFresh id minimal h = elim (Bool-cases (ltb (rc id) (2 ^ 16) && not minimal)) [
    | inl e ↦ rw e (ground arith)
    | inr e ↦ rw e (ground arith)
  ]

  target-IsFresh :
      (direct indirect : ℕ) (minimal : Bool)
      → is_fresh_table direct && is_fresh_table indirect ≡ true
      → IsFresh (compute_table_index minimal rc (get_target_table rc direct indirect))
  unfolding get_target_table
  target-IsFresh direct indirect minimal h = elim (Bool-cases (rc indirect != 0)) [
    | inl e ↦ rw e (table-IsFresh indirect minimal (ground arith))
    | inr e ↦ rw e (table-IsFresh direct minimal (ground arith))
  ]

  coded-IsFresh :
      (ci : ℕ) (minimal : Bool)
      → is_fresh (coded_bits ci true) && is_fresh (coded_bits ci false) ≡ true
      → IsFresh (compute_coded_index minimal rc ci)
  unfolding compute_coded_index is_fresh coded_bits
  coded-IsFresh ci minimal h = by_entry (get_elem? coded_index_map ci)
    where
      by_entry :
          (o : Option CodedIndexEntry)
          → IsFresh (
              bit_or (bit_or (insert_coded_index ci) mdtc_idx_coded) (elim o [
                | none ↦ mdtc_b4
                | some entry ↦ narrow_or_wide (
                    ltb (most_rows rc entry.lookup 0) (2 ^ (16 - entry.bit_encoding_size))
                    && not minimal)
              ]))
      by_entry none = ground arith
      by_entry (some entry) =
          elim (Bool-cases (
            ltb (most_rows rc entry.lookup 0) (2 ^ (16 - entry.bit_encoding_size))
            && not minimal)) [ inl e ↦ rw e (ground arith) | inr e ↦ rw e (ground arith) ]

  column-IsFresh :
      (flags : ℕ) (k : ColumnKind) → is_fresh_kind k ≡ true → IsFresh (column_of rc flags k)
  unfolding column_of is_fresh_kind
  column-IsFresh flags (constant width) h = ground arith
  column-IsFresh flags string h = ground arith
  column-IsFresh flags guid h = ground arith
  column-IsFresh flags blob h = ground arith
  column-IsFresh flags (table id) h = table-IsFresh id _ h
  column-IsFresh flags (target direct indirect) h = target-IsFresh direct indirect _ h
  column-IsFresh flags (coded ci) h = coded-IsFresh ci _ h

  columns-IsFresh :
      (flags : ℕ) (ks : List ColumnKind)
      → all_fresh ks ≡ true
      → All IsFresh (map (column_of rc flags) ks)
  unfolding all_fresh
  columns-IsFresh flags [] h = tt
  columns-IsFresh flags (k ∷ ks) h =
      (column-IsFresh flags k (ground arith), columns-IsFresh flags ks (ground arith))

length-map_kinds : (f : ColumnKind → ℕ) (ks : List ColumnKind) → length (map f ks) ≡ length ks
length-map_kinds f [] = refl
length-map_kinds f (k ∷ ks) = ap suc (length-map_kinds f ks)

-- The tables that the build knows.
abbrev pub IsTableId : ℕ → Type 0
IsTableId id = (id < 56) × (id ≢ 0x2d) × (id ≢ 0x2e) × (id ≢ 0x2f)

reserved : (id : ℕ) → IsTableId id → (n : Option ℕ) → check_row id none n ≡ true → ⊥
unfolding check_row
reserved id h n e = ground arith

no_count : (id : ℕ) (kinds : List ColumnKind) → check_row id (some kinds) none ≡ true → ⊥
unfolding check_row
no_count id kinds e = cc

row_parts :
    (id : ℕ) (kinds : List ColumnKind) (count : ℕ)
    → check_row id (some kinds) (some count) ≡ true
    → (all_fresh kinds ≡ true) × (length kinds ≡ count) × (1 ≤ count) × (count ≤ 9)
unfolding check_row
row_parts id kinds count e = ground arith

laid_out :
    (id : ℕ)
    → IsTableId id
    → (kinds : List ColumnKind) × (count : ℕ) × (kinds_of id ≡ some kinds)
      × (get_elem? table_column_counts id ≡ some count)
      × (all_fresh kinds ≡ true)
      × (length kinds ≡ count)
      × (1 ≤ count)
      × (count ≤ 9)
unfolding is_laid_out
laid_out id h =
    from (kinds_of id) (get_elem? table_column_counts id)
      (all_below_sound 56 is_laid_out id laid_out_table h.0) refl refl
  where
    from :
        (o : Option (List ColumnKind)) (n : Option ℕ)
        → check_row id o n ≡ true
        → kinds_of id ≡ o
        → get_elem? table_column_counts id ≡ n
        → (kinds : List ColumnKind) × (count : ℕ) × (kinds_of id ≡ some kinds)
          × (get_elem? table_column_counts id ≡ some count)
          × (all_fresh kinds ≡ true)
          × (length kinds ≡ count)
          × (1 ≤ count)
          × (count ≤ 9)
    from none n ok_row e f = absurd (reserved id h n ok_row)
    from (some kinds) none ok_row e f = absurd (no_count id kinds ok_row)
    from (some kinds) (some count) ok_row e f =
        let (fresh, len, lo, hi) = row_parts id kinds count ok_row in
        (kinds, count, e, f, fresh, len, lo, hi)

count_of :
    (id count : ℕ)
    → get_elem? table_column_counts id ≡ some count
    → get_table_column_count id ≡ ok count
unfolding get_table_column_count
count_of id count h = ground arith

-- Every table of the build with a row is laid out, whatever the row counts and the sizes of the
-- heaps: as many columns as the table of column counts says, side by side from offset 0 to the row's
-- size, which is 2 to 36 bytes. Each column has one of the two widths. The id, the row count and
-- whether the table is sorted are stored.
pub initialize_table_details-Tiles :
    (rc : ℕ → ℕ) (flags id : ℕ) (is_sorted : Bool) (t : Mdtable)
    → IsTableId id
    → rc id ≢ 0
    → (t' : Mdtable) × (initialize_table_details rc flags id is_sorted t ≡ ok t')
      × Tiles 0 t'.column_details t'.row_size_bytes
      × (length t'.column_details ≡ t'.column_count)
      × (get_table_column_count id ≡ ok t'.column_count)
      × (2 ≤ t'.row_size_bytes)
      × (t'.row_size_bytes ≤ 36)
      × (t'.row_count ≡ rc id)
      × (t'.table_id ≡ id)
      × All IsSized t'.column_details
      × (t'.is_sorted ≡ is_sorted)
unfolding initialize_table_details
initialize_table_details-Tiles rc flags id is_sorted t h nonempty =
    let (kinds, count, pk, pc, fresh, len, lo, hi) = laid_out id h in
    let cols : List ℕ = map (column_of rc flags) kinds in
    let many : length cols ≡ count = length-map_kinds (column_of rc flags) kinds ∙ len in
    let (tiles, same, long, least, most, all_sized) =
      compute_row_offsets_size-Tiles 0 cols (columns-IsFresh rc flags kinds fresh) (omega arith) in
    let small : (compute_row_offsets_size 0 cols).1 % 256 ≡ (compute_row_offsets_size 0 cols).1 =
      omega arith in
    let counted : get_table_column_count id ≡ ok count = count_of id count pc in
    (
      record t {
        row_count = rc id;
        is_sorted = is_sorted;
        table_id = id % 256;
        column_details = (compute_row_offsets_size 0 cols).0;
        column_count = count;
        row_size_bytes = (compute_row_offsets_size 0 cols).1 % 256;
      },
      ground arith,
      rw small tiles,
      long ∙ many,
      counted,
      omega arith,
      omega arith,
      refl,
      omega arith,
      all_sized,
      refl,
    )
