-- ===== src/Find/Column.antt =====
-- The values of a column of a loaded table, the way the searches of src/dnmd/query.c read them.
use dnmd.Base.{ℕ, ◌+◌, ◌-◌, ◌*◌, ◌%◌, ◌^◌, ◌≤◌, ◌<◌, ◌≡◌, arith, refl, inl, inr, ap, ◌∙◌, sym}
use dnmd.Base.{
  Outcome, ◌>>=◌, some, All-drop, length, length-drop, drop, get_elem?, ok, false, ◌==◌, leb,
  if◌then◌else◌,
}
use dnmd.Access.{
  AccessCxt, access_row, create_access_context, read_column_data, create_cursor, cursor_row,
  read_column,
}
use dnmd.Access.Bounds.{
  cursor_access, access_row-found, column_inside, found-IsSized, widths, row_inside, some-injective,
  read_column-IsLoaded,
}
use dnmd.Bytes.{IsByte, read_u16, read_u32, read_le}
use dnmd.Bytes.Little.{little, little-lt, IsWidth, read_le-little}
use dnmd.Cursors.Moves.{row_back}
use dnmd.Find.{
  FindCxt, create_find_context, read_or_zero, compare_row, compare_row_2bytes, compare_row_4bytes,
  cursor_to_row_bytes,
}
use dnmd.Schema.Details.{Mdtable, extract_offset, column_width}
use dnmd.Search.{col_compare_2bytes, col_compare_4bytes}
use dnmd.Tables.Loaded.{IsLoaded}

-- The value of the column `col` in the row number `i`, from 0 on.
abbrev pub col_at : Mdtable → ℕ → ℕ → ℕ
col_at t col i =
    little (column_width col) (drop (t.row_size_bytes * i + extract_offset col) t.contents.ptr)

abbrev pub find_cxt : ℕ → FindCxt
find_cxt col = record {
  col_offset = extract_offset col;
  data_len = column_width col;
  details = col;
}

-- A loaded table of less than 4 GiB and 2 ^ 24 rows, and one of its columns.
pub record IsColumn (t : Mdtable) (idx col : ℕ) : Type 0 where
  pub loaded : IsLoaded t
  pub bytes_small : t.contents.size < 2 ^ 32
  pub rows_small : t.row_count < 2 ^ 24
  pub in_columns : idx < t.column_count
  pub column : get_elem? t.column_details idx ≡ some col

module _ (t : Mdtable) (idx col : ℕ) (is : IsColumn t idx col) where
  pub create_find_context-IsColumn : create_find_context t idx ≡ ok (find_cxt col)
  unfolding create_find_context
  create_find_context-IsColumn =
      let inside : leb t.column_count idx ≡ false = ground (arith, is.in_columns) in
      rw (inside, is.column) refl

  pub read_column-IsColumn :
      (row : ℕ)
      → 0 < row
      → row ≤ t.row_count
      → read_column (create_cursor t row) idx ≡ ok (col_at t col (row - 1))
  read_column-IsColumn row pos le =
      let here : cursor_row (create_cursor t row) ≡ row =
        row_back t row (omega (arith, is.rows_small)) in
      let (col', e, inside, read) =
        read_column-IsLoaded (create_cursor t row) t idx is.loaded refl (omega arith) (omega arith)
          is.in_columns is.bytes_small in
      let same : col' ≡ col = some-injective (sym e ∙ is.column) in
      let place : (cursor_row (create_cursor t row) - 1) * t.row_size_bytes
          ≡ t.row_size_bytes * (row - 1) =
        rw here (omega arith) in
      read
      ∙ ap
          (λ (o : ℕ).
            ok (little (column_width col') (drop (o + extract_offset col') t.contents.ptr)))
          place
      ∙ ap
          (λ (k : ℕ). ok (
            little (column_width k)
              (drop (t.row_size_bytes * (row - 1) + extract_offset k) t.contents.ptr)))
          same

  -- The context of a column of a row, and the value read through it.
  pub accessed :
      (row : ℕ)
      → 0 < row
      → row ≤ t.row_count
      → (acxt : AccessCxt) × (create_access_context (create_cursor t row) idx ≡ ok acxt)
        × (acxt.col_details ≡ col)
        × (read_column_data acxt ≡ ok (col_at t col (row - 1)))
  unfolding read_column
  accessed row pos le =
      let here : cursor_row (create_cursor t row) ≡ row =
        row_back t row (omega (arith, is.rows_small)) in
      let past = row_inside (row - 1) t.row_count t.row_size_bytes (omega arith) in
      let within =
        column_inside t.column_details 0 t.row_size_bytes idx col is.loaded.tiles is.column in
      let acxt : AccessCxt = record {
        bytes = drop ((row - 1) * t.row_size_bytes + extract_offset col) t.contents.ptr;
        col_details = col;
      } in
      let made : create_access_context (create_cursor t row) idx ≡ ok acxt =
        cursor_access (create_cursor t row) t idx refl
        ∙ ap (λ (r : ℕ). access_row t r idx) here
        ∙ access_row-found t row idx col pos le is.column
            (omega (arith, past, within, is.loaded.filled, is.bytes_small)) in
      (
        acxt,
        made,
        refl,
        ap (λ (o : Outcome AccessCxt). o >>= read_column_data) (sym made)
            ∙ read_column-IsColumn row pos le,
      )

  pub fits :
      (i : ℕ)
      → i < t.row_count
      → t.row_size_bytes * i + extract_offset col + column_width col ≤ t.contents.size
  fits i lt =
      let within =
        column_inside t.column_details 0 t.row_size_bytes idx col is.loaded.tiles is.column in
      let past = row_inside i t.row_count t.row_size_bytes lt in
      omega (arith, within, past, is.loaded.filled)

  read_value :
      (i w : ℕ)
      → i < t.row_count
      → IsWidth w
      → w ≤ column_width col
      → read_or_zero (
          read_le
            (record {
              ptr = drop (t.row_size_bytes * i + extract_offset col) t.contents.ptr;
              size = w;
            })
            w)
        ≡ little w (drop (t.row_size_bytes * i + extract_offset col) t.contents.ptr)
  read_value i w lt width e =
      let o : ℕ = t.row_size_bytes * i + extract_offset col in
      let enough : w ≤ length (drop o t.contents.ptr) =
        rw length-drop (omega (arith, fits i lt, is.loaded.valid.readable)) in
      rw
        (read_le-little (record { ptr = drop o t.contents.ptr; size = w }) w
          (record {
            readable = enough;
            bytes = All-drop IsByte o t.contents.ptr is.loaded.valid.bytes;
          })
          width (omega arith))
        refl

  pub start_of :
      (row : ℕ)
      → 0 < row
      → row ≤ t.row_count
      → cursor_to_row_bytes t row ≡ t.row_size_bytes * (row - 1)
  unfolding cursor_to_row_bytes
  start_of row pos le =
      let past = row_inside (row - 1) t.row_count t.row_size_bytes (omega arith) in
      omega (arith, past, is.loaded.filled, is.bytes_small)

  -- The comparison of a key to the row number `i`.
  pub compare_row-IsColumn :
      (key i : ℕ)
      → i < t.row_count
      → compare_row (find_cxt col) t.contents.ptr key (t.row_size_bytes * i) ≡ (
          if column_width col == 2
          then col_compare_2bytes (key % 2 ^ 16) (col_at t col i)
          else col_compare_4bytes key (col_at t col i))
  unfolding compare_row_2bytes compare_row_4bytes read_u16 read_u32
  compare_row-IsColumn key i lt =
      elim (widths col (found-IsSized t.column_details idx col is.loaded.one_width is.column)) [
        | inl (w, e) ↦ rw w (
            ap (col_compare_2bytes (key % 2 ^ 16))
              (read_value i 2 lt (inr (inl refl)) (omega (arith, w))))
        | inr (w, e) ↦ rw w (
            ap (col_compare_4bytes key)
              (read_value i 4 lt (inr (inr (inl refl))) (omega (arith, w))))
      ]

  pub col_at-lt : (i : ℕ) → col_at t col i < 256 ^ column_width col
  col_at-lt i =
      little-lt (column_width col) (drop (t.row_size_bytes * i + extract_offset col) t.contents.ptr)
        (All-drop IsByte (t.row_size_bytes * i + extract_offset col) t.contents.ptr
          is.loaded.valid.bytes)
