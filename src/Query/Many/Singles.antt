-- ===== src/Query/Many/Singles.antt =====
-- The bulk read of a column of src/dnmd/query.c against the reads of its rows one by one.
use dnmd.Base.{
  ℕ, zero, suc, ◌+◌, ◌-◌, ◌*◌, ◌%◌, ◌^◌, ◌≤◌, ◌<◌, ◌≡◌, ◌⊎◌, inl, inr, arith, refl, sym, ap, ◌∙◌,
  bit_and, bit_or,
}
use dnmd.Base.{
  List, [], ◌∷◌, drop, length-drop, drop-drop, All-drop, Bool, Bool-cases, true, false, ◌&&◌, ◌||◌,
  ltb, leb, ◌==◌, ◌!=◌, if◌then◌else◌, Outcome, ok, failed, fault, ◌>>=◌, ◌>>◌, guard, length,
}
use dnmd.Access.{create_cursor, cursor_row}
use dnmd.Access.Bounds.{found-IsSized, widths, column_inside, row_inside}
use dnmd.Access.Bulk.{
  BulkAccessCxt, bulk_access, bulk_access_row, create_bulk_access_context,
  read_column_data_and_advance, next_row, last_row,
}
use dnmd.Bytes.{IsByte, read_u16, read_u32, read_le}
use dnmd.Bytes.Little.{little, IsWidth, read_le-little}
use dnmd.Coded.{create_token_type}
use dnmd.Ids.{mdtable_max_count}
use dnmd.Cursors.Moves.{row_back}
use dnmd.Find.Column.{IsColumn, col_at, accessed, fits}
use dnmd.Flags.{mdtc_idx_table, mdtc_idx_coded}
use dnmd.Query.{target_of, get_column_target, md_get_column_value_as_token}
use dnmd.Query.Many.{token_for, tokens_from, md_get_many_rows_column_value_as_token}
use native.Mathlib.Nat.{mul-le-mul_left}
use dnmd.Schema.Details.{Mdtable, column_width, extract_offset}

-- The tokens of `n` rows from the row `r` on, read one by one.
abbrev pub tokens_of : Mdtable → ℕ → ℕ → ℕ → Outcome (List ℕ)
tokens_of t idx zero r = ok []
tokens_of t idx (suc n) r = do
  token ← md_get_column_value_as_token (create_cursor t r) idx
  tokens ← tokens_of t idx n (r + 1)
  ok (token ∷ tokens)

-- The rows that there are of `n` rows from the row `r` on.
abbrev pub rows_read : Mdtable → ℕ → ℕ → ℕ
rows_read t r n = if leb n (t.row_count + 1 - r) then n else t.row_count + 1 - r

abbrev kept : ℕ × ℕ → Outcome (ℕ × ℕ)
kept x = guard (ltb x.0 mdtable_max_count) >> ok (x.0, x.1)

abbrev token : ℕ × ℕ → ℕ
token x = bit_or (create_token_type x.0) x.1

-- The guard is passed before or after the token is made.
guarded :
    (o : Outcome (ℕ × ℕ))
    → (o >>= kept >>= λ x. ok (token x))
      ≡ (o >>= λ x. guard (ltb x.0 mdtable_max_count) >> ok (token x))
guarded (ok (id, row)) = elim (Bool-cases (ltb id mdtable_max_count)) [
  | inl e ↦ rw e refl
  | inr e ↦ rw e refl
]
guarded failed = refl
guarded fault = refl

module _ (t : Mdtable) (idx col : ℕ) (is : IsColumn t idx col) where
  abbrev at : ℕ → ℕ
  at i = t.row_size_bytes * i + extract_offset col

  -- The context at the row number `i`, for the rows before `stop`.
  abbrev bulk : ℕ → ℕ → BulkAccessCxt
  bulk i stop = record {
    col_details = col;
    bytes = drop (at i) t.contents.ptr;
    place = at i;
    end = t.row_size_bytes * stop;
    data_len = column_width col;
    data_len_col = column_width col;
    next_row_stride = t.row_size_bytes - column_width col;
  }

  abbrev bulk_read : ℕ → ℕ → BulkAccessCxt
  bulk_read i stop = record (bulk i stop) {
    bytes = drop (column_width col) (drop (at i) t.contents.ptr);
    place = at i + (column_width col - (column_width col - column_width col));
    data_len = column_width col - column_width col;
  }

  read_one :
      (i w : ℕ)
      → i < t.row_count
      → IsWidth w
      → w ≡ column_width col
      → read_le (record { ptr = drop (at i) t.contents.ptr; size = w }) w
        ≡ ok (
          little w (drop (at i) t.contents.ptr),
          record { ptr = drop w (drop (at i) t.contents.ptr); size = w - w },
        )
  read_one i w lt width e =
      let enough : w ≤ length (drop (at i) t.contents.ptr) =
        rw length-drop (omega (arith, fits t idx col is i lt, is.loaded.valid.readable)) in
      read_le-little (record { ptr = drop (at i) t.contents.ptr; size = w }) w
        (record {
          readable = enough;
          bytes = All-drop IsByte (at i) t.contents.ptr is.loaded.valid.bytes;
        })
        width (omega arith)

  read-bulk :
      (i stop : ℕ)
      → i < t.row_count
      → read_column_data_and_advance (bulk i stop) ≡ ok (col_at t col i, bulk_read i stop)
  unfolding read_column_data_and_advance read_u16 read_u32
  read-bulk i stop lt =
      elim (widths col (found-IsSized t.column_details idx col is.loaded.one_width is.column)) [
        | inl (w, e) ↦ rw (e, w, read_one i 2 lt (inr (inl refl)) (sym w)) refl
        | inr (w, e) ↦ rw (e, w, read_one i 4 lt (inr (inr (inl refl))) (sym w)) refl
      ]

  some_width : 0 < column_width col
  some_width =
      elim (widths col (found-IsSized t.column_details idx col is.loaded.one_width is.column)) [
        | inl (w, e) ↦ omega arith
        | inr (w, e) ↦ omega arith
      ]

  inside : extract_offset col + column_width col ≤ t.row_size_bytes
  inside = column_inside t.column_details 0 t.row_size_bytes idx col is.loaded.tiles is.column

  past :
      (i stop : ℕ)
      → ltb (t.row_size_bytes * (i + 1) + extract_offset col) (t.row_size_bytes * stop)
        ≡ ltb (i + 1) stop
  past i stop = elim (Bool-cases (ltb (i + 1) stop)) [
    | inl more ↦
        let whole = row_inside (i + 1) stop t.row_size_bytes (ground arith) in
        rw more (ground (arith, whole, inside, some_width))
    | inr last ↦
        let le : t.row_size_bytes * stop ≤ t.row_size_bytes * (i + 1) =
          mul-le-mul_left t.row_size_bytes (ground arith) in
        rw last (ground (arith, le))
  ]

  next_row-bulk : (i stop : ℕ) → next_row (bulk_read i stop) ≡ (bulk (i + 1) stop, ltb (i + 1) stop)
  unfolding next_row
  next_row-bulk i stop =
      let up : at i + column_width col + (t.row_size_bytes - column_width col) ≡ at (i + 1) =
        grind (arith, inside) in
      let from_bytes : at i + (column_width col + (t.row_size_bytes - column_width col))
          ≡ at (i + 1) =
        omega (arith, up) in
      let from_place : at i
            + (column_width col - (column_width col - column_width col))
            + (t.row_size_bytes - column_width col)
          ≡ at (i + 1) =
        omega (arith, up) in
      rw (drop-drop, drop-drop, from_bytes, from_place, past i stop) refl

  -- The context that the call starts with.
  started :
      (i n : ℕ)
      → i < t.row_count
      → i + n < 2 ^ 32
      → (stop : ℕ) × (stop ≡ i + rows_read t (i + 1) n) × (bulk_access t i col n ≡ bulk i stop)
  started i n lt small =
      let first = row_inside i t.row_count t.row_size_bytes lt in
      let rows : i + rows_read t (i + 1) n ≤ t.row_count = ground arith in
      let last : last_row t i n ≡ i + rows_read t (i + 1) n = ground arith in
      let size : t.row_size_bytes * (i + rows_read t (i + 1) n) ≤ t.row_size_bytes * t.row_count =
        mul-le-mul_left t.row_size_bytes rows in
      let from : (i * t.row_size_bytes) % 2 ^ 32 ≡ t.row_size_bytes * i =
        omega (arith, first, is.loaded.filled, is.bytes_small) in
      let to : ((i + rows_read t (i + 1) n) * t.row_size_bytes) % 2 ^ 32
          ≡ t.row_size_bytes * (i + rows_read t (i + 1) n) =
        omega (arith, size, is.loaded.filled, is.bytes_small) in
      let stride : (t.row_size_bytes + 2 ^ 32 - column_width col) % 2 ^ 32
          ≡ t.row_size_bytes - column_width col =
        omega (arith, inside, first, is.loaded.filled, is.bytes_small) in
      (i + rows_read t (i + 1) n, refl, rw (last, from, to, stride) refl)

  -- The token of a row read alone, in a column that is an index.
  single :
      (i : ℕ)
      → i < t.row_count
      → (bit_and col (bit_or mdtc_idx_table mdtc_idx_coded) != 0) ≡ true
      → md_get_column_value_as_token (create_cursor t (i + 1)) idx ≡ token_for col (col_at t col i)
  unfolding md_get_column_value_as_token get_column_target token_for
  single i lt index =
      let (acxt, made, details, read) = accessed t idx col is (i + 1) (omega arith) (omega arith) in
      let number : i + 1 - 1 ≡ i = omega arith in
      rw (made, read, details, index, number) (guarded (target_of col (col_at t col i)))

  alone_failed :
      (i : ℕ)
      → i < t.row_count
      → (bit_and col (bit_or mdtc_idx_table mdtc_idx_coded) != 0) ≡ false
      → md_get_column_value_as_token (create_cursor t (i + 1)) idx ≡ failed
  unfolding md_get_column_value_as_token get_column_target
  alone_failed i lt index =
      let (acxt, made, details, read) = accessed t idx col is (i + 1) (omega arith) (omega arith) in
      rw (made, details, index) refl

  tokens_from-tokens_of :
      (fuel i stop : ℕ) (more : Bool)
      → (bit_and col (bit_or mdtc_idx_table mdtc_idx_coded) != 0) ≡ true
      → i < stop
      → stop ≤ t.row_count
      → stop ≤ i + fuel
      → (more ≡ true) ⊎ (stop ≡ i + 1)
      → tokens_from fuel more (bulk i stop) ≡ tokens_of t idx (stop - i) (i + 1)
  unfolding tokens_from
  tokens_from-tokens_of zero i stop more index lt le enough h = absurd (omega arith)
  tokens_from-tokens_of (suc fuel) i stop more index lt le enough h =
      let left : stop - i ≡ suc (stop - (i + 1)) = omega arith in
      let read = read-bulk i stop (omega arith) in
      let alone = single i (omega arith) index in
      elim (Bool-cases (ltb (i + 1) stop)) [
        | inl further ↦
            let on : more ≡ true = goes_on h (ground arith) in
            let rest =
              tokens_from-tokens_of fuel (i + 1) stop more index (ground arith) le (omega arith)
                (inl on) in
            rw (read, next_row-bulk i stop, left, alone, further, rest, on) refl
        | inr ended ↦
            let none_left : stop - (i + 1) ≡ 0 = ground arith in
            rw (read, next_row-bulk i stop, left, alone, ended, none_left, stops more) refl
      ]
    where
      goes_on : {b : Bool} {x y : ℕ} → (b ≡ true) ⊎ (x ≡ y) → y < x → b ≡ true
      goes_on (inl e) lt = e
      goes_on (inr e) lt = absurd (omega arith)

      stops : (b : Bool) → (b && false) ≡ false
      stops true = refl
      stops false = refl

  created :
      (i n : ℕ)
      → i < t.row_count
      → create_bulk_access_context (create_cursor t (i + 1)) idx n ≡ ok (bulk_access t i col n)
  unfolding create_bulk_access_context bulk_access_row
  created i n lt =
      let back = row_back t (i + 1) (omega (arith, is.rows_small)) in
      let outside : (i + 1 == 0 || ltb t.row_count (i + 1)) ≡ false = ground arith in
      let number : cursor_row (create_cursor t (i + 1)) - 1 ≡ i = omega (arith, back) in
      rw (back, outside, is.column) (ap (λ (k : ℕ). ok (bulk_access t k col n)) number)

  pub md_get_many_rows_column_value_as_token-tokens_of :
      (i n : ℕ)
      → i < t.row_count
      → 0 < n
      → i + n < 2 ^ 32
      → md_get_many_rows_column_value_as_token (create_cursor t (i + 1)) idx n
        ≡ tokens_of t idx (rows_read t (i + 1) n) (i + 1)
  unfolding md_get_many_rows_column_value_as_token
  md_get_many_rows_column_value_as_token-tokens_of i n lt some_rows small =
      let (stop, ends, starts) = started i n lt small in
      let one : 1 ≤ rows_read t (i + 1) n = ground arith in
      let rows : rows_read t (i + 1) n ≤ t.row_count - i = ground arith in
      let most : rows_read t (i + 1) n ≤ n = ground arith in
      let alone : (ltb 1 n ≡ true) ⊎ (stop ≡ i + 1) = elim (Bool-cases (ltb 1 n)) [
        | inl e ↦ inl e
        | inr e ↦ let single_row : n ≤ 1 = ground arith in inr (omega arith)
      ] in
      elim (Bool-cases (bit_and col (bit_or mdtc_idx_table mdtc_idx_coded) != 0)) [
        | inl index ↦
            let count : stop - i ≡ rows_read t (i + 1) n = omega arith in
            rw (created i n lt, starts, index)
              (tokens_from-tokens_of n i stop (ltb 1 n) index (omega arith) (omega arith)
                  (omega arith) alone
                ∙ ap (λ (k : ℕ). tokens_of t idx k (i + 1)) count)
        | inr index ↦
            let count : rows_read t (i + 1) n ≡ suc (rows_read t (i + 1) n - 1) = omega arith in
            let fails : tokens_of t idx (rows_read t (i + 1) n) (i + 1) ≡ failed =
              ap (λ (k : ℕ). tokens_of t idx k (i + 1)) count ∙ rw (alone_failed i lt index) refl in
            rw (created i n lt, starts, index) (sym fails)
      ]
