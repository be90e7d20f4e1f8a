-- ===== src/Access/Bounds.antt =====
-- Reads of the columns of a loaded table stay inside the table's rows.
use dnmd.Base.{
  ℕ, zero, suc, ◌+◌, ◌-◌, ◌*◌, ◌/◌, ◌%◌, ◌^◌, ◌≤◌, ◌<◌, ◌≡◌, ◌⊎◌, arith, refl, sym, ◌∙◌, inl, inr,
}
use dnmd.Base.{List, [], ◌∷◌, some, true, false, All, length, length-drop, drop, get_elem?}
use dnmd.Base.{
  subst, ◌&&◌, ◌||◌, all_below, all_below_sound, bit_and, bit_and_split, bit_and-zero, ltb, ◌==◌,
  ok, All-drop,
}
use dnmd.Access.{
  Mdcursor, cursor_row, access_row, create_access_context, read_column_data, read_column, value,
}
use dnmd.Bytes.{IsByte, read_le, read_u16, read_u32}
use dnmd.Bytes.Little.{little, IsWidth, read_le-little}
use dnmd.Flags.{mdtc_b4}
use dnmd.Schema.Details.{Mdtable, extract_offset, column_width}
use dnmd.Schema.Layout.{Tiles, IsSized}
use dnmd.Tables.Loaded.{IsLoaded}

pub some-injective : {x y : ℕ} → some x ≡ some y → x ≡ y
some-injective h = cc

Tiles-le : (cols : List ℕ) (c size : ℕ) → Tiles c cols size → c ≤ size
Tiles-le [] c size h = omega arith
Tiles-le (col ∷ cols) c size h = omega (arith, Tiles-le cols (c + column_width col) size h.1)

-- A column of a row ends inside the row.
pub column_inside :
    (cols : List ℕ) (c size idx col : ℕ)
    → Tiles c cols size
    → get_elem? cols idx ≡ some col
    → extract_offset col + column_width col ≤ size
column_inside [] c size idx col h e = cc
column_inside (d ∷ cols) c size zero col h e =
    let same : d ≡ col = some-injective e in
    rw (sym same, h.0) (Tiles-le cols (c + column_width d) size h.1)
column_inside (d ∷ cols) c size (suc idx) col h e =
    column_inside cols (c + column_width d) size idx col h.1 e

pub column_found :
    (cols : List ℕ) (idx : ℕ) → idx < length cols → (col : ℕ) × (get_elem? cols idx ≡ some col)
column_found [] idx lt = absurd (omega arith)
column_found (d ∷ cols) zero lt = (d, refl)
column_found (d ∷ cols) (suc idx) lt = column_found cols idx (omega arith)

pub found-IsSized :
    (cols : List ℕ) (idx col : ℕ) → All IsSized cols → get_elem? cols idx ≡ some col → IsSized col
found-IsSized [] idx col h e = cc
found-IsSized (d ∷ cols) zero col h e = subst IsSized (some-injective e) h.0
found-IsSized (d ∷ cols) (suc idx) col h e = found-IsSized cols idx col h.1 e

flags_table :
    all_below 256 (λ b. bit_and b 16 == b / 16 % 2 * 16 && bit_and b 32 == b / 32 % 2 * 32) ≡ true
unfolding all_below
flags_table = refl

low_flags : (b : ℕ) → b < 256 → (bit_and b 16 ≡ b / 16 % 2 * 16) × (bit_and b 32 ≡ b / 32 % 2 * 32)
low_flags b h = let e = all_below_sound 256 _ b flags_table h in (ground arith, ground arith)

flag_of : (col m : ℕ) → m < 256 → bit_and col m ≡ bit_and (col % 256) m
flag_of col m h =
    grind
      (arith, bit_and_split 8 (col / 256) (col % 256) 0 m (omega arith) h, bit_and-zero (col / 256))

-- What the two flags say of the width.
pub widths :
    (col : ℕ)
    → IsSized col
    → ((column_width col ≡ 2) × ((bit_and col mdtc_b4 == mdtc_b4) ≡ false))
      ⊎ ((column_width col ≡ 4) × ((bit_and col mdtc_b4 == mdtc_b4) ≡ true))
widths col sized =
    let (e16, e32) = low_flags (col % 256) (omega arith) in
    let f16 : bit_and col 16 ≡ col % 256 / 16 % 2 * 16 = flag_of col 16 (omega arith) ∙ e16 in
    let f32 : bit_and col 32 ≡ col % 256 / 32 % 2 * 32 = flag_of col 32 (omega arith) ∙ e32 in
    elim sized [
      | inl h ↦ inl (ground arith, ground arith)
      | inr h ↦ inr (ground arith, ground arith)
    ]

read_width :
    (p : List ℕ) (w : ℕ)
    → All IsByte p
    → w ≤ length p
    → IsWidth w
    → value (read_le (record { ptr = p; size = w }) w) ≡ ok (little w p)
read_width p w v fits is =
    rw
      (read_le-little (record { ptr = p; size = w }) w (record { readable = fits; bytes = v }) is
        (omega arith))
      refl

pub read_column_data-little :
    (p : List ℕ) (col : ℕ)
    → All IsByte p
    → IsSized col
    → column_width col ≤ length p
    → read_column_data (record { bytes = p; col_details = col }) ≡ ok (little (column_width col) p)
unfolding read_column_data read_u32 read_u16 read_le
read_column_data-little p col v sized fits = elim (widths col sized) [
  | inl (w, e) ↦ rw (e, w) (read_width p 2 v (omega arith) (inr (inl refl)))
  | inr (w, e) ↦ rw (e, w) (read_width p 4 v (omega arith) (inr (inr (inl refl))))
]

pub row_inside : (a b k : ℕ) → a < b → a * k + k ≤ k * b
row_inside a b k lt = grind arith

pub access_row-found :
    (t : Mdtable) (row idx col : ℕ)
    → 0 < row
    → row ≤ t.row_count
    → get_elem? t.column_details idx ≡ some col
    → (row - 1) * t.row_size_bytes + extract_offset col < 2 ^ 32
    → access_row t row idx
      ≡ ok (record {
        bytes = drop ((row - 1) * t.row_size_bytes + extract_offset col) t.contents.ptr;
        col_details = col;
      })
unfolding access_row
access_row-found t row idx col pos le e small =
    let test : (row == 0 || ltb t.row_count row) ≡ false = ground arith in
    let no_wrap : ((row - 1) * t.row_size_bytes + extract_offset col) % 2 ^ 32
        ≡ (row - 1) * t.row_size_bytes + extract_offset col =
      omega (arith, small) in
    rw (test, e, no_wrap) refl

pub cursor_access :
    (c : Mdcursor) (t : Mdtable) (idx : ℕ)
    → c.table_of ≡ some t
    → create_access_context c idx ≡ access_row t (cursor_row c) idx
unfolding create_access_context
cursor_access c t idx e = rw e refl

-- In a loaded table of less than 4 GiB, a read of any column of any row succeeds: it gives the
-- little-endian number at the row's place plus the column's offset, which lies inside the rows.
pub read_column-IsLoaded :
    (c : Mdcursor) (t : Mdtable) (idx : ℕ)
    → IsLoaded t
    → c.table_of ≡ some t
    → 0 < cursor_row c
    → cursor_row c ≤ t.row_count
    → idx < t.column_count
    → t.contents.size < 2 ^ 32
    → (col : ℕ) × (get_elem? t.column_details idx ≡ some col)
      × ((cursor_row c - 1) * t.row_size_bytes + extract_offset col + column_width col
          ≤ t.contents.size)
      × (read_column c idx
          ≡ ok (
              little
                (column_width col)
                (drop ((cursor_row c - 1) * t.row_size_bytes + extract_offset col) t.contents.ptr)))
unfolding read_column
read_column-IsLoaded c t idx is at pos le lt small =
    let (col, e) = column_found t.column_details idx (omega (arith, lt, is.columns)) in
    let within = column_inside t.column_details 0 t.row_size_bytes idx col is.tiles e in
    let past = row_inside (cursor_row c - 1) t.row_count t.row_size_bytes (omega arith) in
    let o : ℕ = (cursor_row c - 1) * t.row_size_bytes + extract_offset col in
    let inside : o + column_width col ≤ t.contents.size = omega (arith, within, past, is.filled) in
    let p : List ℕ = drop o t.contents.ptr in
    let fits : column_width col ≤ length p =
      rw length-drop (omega (arith, inside, is.valid.readable)) in
    (
      col,
      e,
      inside,
      rw
          (
            cursor_access c t idx at,
            access_row-found t (cursor_row c) idx col pos le e (omega arith),
          )
          (read_column_data-little p col (All-drop IsByte o t.contents.ptr is.valid.bytes)
            (found-IsSized t.column_details idx col is.one_width e) fits),
    )
