-- ===== src/Find/Range/Whole.antt =====
-- What `md_find_range_from_cursor` of src/dnmd/query.c finds in a loaded table.
use dnmd.Base.{ℕ, ◌+◌, ◌-◌, ◌%◌, ◌^◌, ◌≤◌, ◌<◌, ◌≡◌, ◌≢◌, ◌↔◌, arith, refl, ap, ◌∙◌}
use dnmd.Base.{List, some, true, false, ok, failed, fault, not, ◌||◌, ◌&&◌, Outcome, ◌>>=◌}
use native.Mathlib.Decide.{dec_lt, dec_le}
use dnmd.Access.{Mdcursor, create_cursor, cursor_row, read_column}
use dnmd.Cursors.Moves.{row_back}
use dnmd.Find.{
  search_key, compare_row, cursor_to_row_bytes, md_find_row_from_cursor, find_row_from_cursor,
}
use dnmd.Find.Column.{
  IsColumn, find_cxt, col_at, col_at-lt, create_find_context-IsColumn, read_column-IsColumn,
  compare_row-IsColumn, start_of,
}
use dnmd.Find.Range.{
  RangeResult, md_range_found, md_range_not_found, md_range_not_supported, range_around,
  range_start, range_end, range_of, is_first_key, md_find_range_from_cursor,
}
use dnmd.Find.Range.Extent.{range_start-IsStart, range_end-IsEnd}
use dnmd.Find.Rows.{
  Holds, IsFound, ordered_of_width, two_or_four, same_value, with_key,
  find_row_from_cursor-with_key, md_find_row_from_cursor-IsFound,
}
use dnmd.Schema.Details.{Mdtable, column_width}
use dnmd.Schema.Keys.{MdKeyInfo, get_table_keys}
use dnmd.Search.Compare.{Orders}

-- The rows that hold the key are those of the range, one at least.
abbrev pub IsRange : Mdtable → ℕ → ℕ → RangeResult → Type 0
IsRange t idx key (md_range_found start count) =
    (s : ℕ) × (start ≡ create_cursor t s)
    × (0 < s)
    × (0 < count)
    × (s + count ≤ t.row_count + 1)
    × ((r : ℕ) → 0 < r → r ≤ t.row_count → Holds t idx key r ↔ ((s ≤ r) × (r < s + count)))
IsRange t idx key md_range_not_found =
    (r : ℕ) → 0 < r → r ≤ t.row_count → read_column (create_cursor t r) idx ≢ ok key
IsRange t idx key md_range_not_supported = ⊥

module _ (t : Mdtable) (idx col key : ℕ) (is : IsColumn t idx col)
    (fits : key < 256 ^ column_width col)
    (ascends : (r r' v v' : ℕ)
      → 1 ≤ r
      → r ≤ r'
      → r' ≤ t.row_count
      → Holds t idx v r
      → Holds t idx v' r'
      → v ≤ v')
    (near : (r v : ℕ)
      → 1 ≤ r
      → r ≤ t.row_count
      → Holds t idx v r
      → (key < v + 2 ^ 31) × (v ≤ key + 2 ^ 31)) where
  abbrev val : ℕ → ℕ
  val r = col_at t col (r - 1)

  held : (r : ℕ) → 0 < r → r ≤ t.row_count → Holds t idx (val r) r
  held r pos le = read_column-IsColumn t idx col is r pos le

  orders :
      (r : ℕ)
      → 0 < r
      → r ≤ t.row_count
      → Orders (compare_row (find_cxt col) t.contents.ptr key (cursor_to_row_bytes t r)) key (val r)
  orders r pos le =
      let (n1, n2) = near r (val r) pos le (held r pos le) in
      rw
        (
          start_of t idx col is r pos le,
          compare_row-IsColumn t idx col is key (r - 1) (omega arith),
        )
        (ordered_of_width (column_width col) key (val r)
          (two_or_four t idx col 1 key is (omega arith) (omega arith) fits) fits
          (col_at-lt t idx col is (r - 1)) n1 n2)

  sorted : (q r : ℕ) → 0 < q → q ≤ r → r ≤ t.row_count → val q ≤ val r
  sorted q r a b c =
      ascends q r (val q) (val r) a b c (held q a (omega arith)) (held r (omega arith) c)

  -- The rows around a row `r`, from the run of the key and the rows before and behind it.
  within :
      (s r e q : ℕ)
      → 0 < q
      → q ≤ t.row_count
      → 0 < s
      → s ≤ r
      → r < e
      → ((p : ℕ) → s ≤ p → p ≤ r → val p ≡ key)
      → ((p : ℕ) → r ≤ p → p < e → val p ≡ key)
      → ((p : ℕ) → 0 < p → p < s → val p < key)
      → ((p : ℕ) → e ≤ p → p ≤ t.row_count → key < val p)
      → Holds t idx key q ↔ ((s ≤ q) × (q < s + (e - s)))
  within s r e q a b pos le lt run_s run_e before after = (
    λ h. inside (same_value (held q a b) h),
    λ (p1, p2). held q a b ∙ ap (λ (k : ℕ). ok k) (run p1 (omega arith)),
  )
    where
      run : s ≤ q → q < e → val q ≡ key
      run p1 p2 = elim (dec_le q r) [
        | yes low ↦ run_s q p1 low
        | no high ↦ run_e q (omega arith) p2
      ]

      inside : val q ≡ key → (s ≤ q) × (q < s + (e - s))
      inside same = elim (dec_lt q s) [
        | yes below ↦ absurd (omega (arith, before q a below))
        | no above ↦ elim (dec_lt q e) [
          | yes below ↦ (omega arith, omega arith)
          | no behind ↦ absurd (omega (arith, after q (omega arith) b))
        ]
      ]

  range_around-IsRange :
      (r : ℕ)
      → 0 < r
      → r ≤ t.row_count
      → Holds t idx key r
      → t.row_count + 1 < 2 ^ 24
      → IsRange t idx key (range_around t (find_cxt col) key (create_cursor t r))
  unfolding range_around
  range_around-IsRange r pos le holds small =
      let here : val r ≡ key = same_value (held r pos le) holds in
      let (s, at_s, pos_s, le_s, run_s, before) =
        range_start-IsStart t (find_cxt col) key val small orders sorted (t.row_count + 1) r
          (omega arith) pos le here in
      let (e, at_e, lt_e, le_e, run_e, after) =
        range_end-IsEnd t (find_cxt col) key val small orders sorted (t.row_count + 1) r
          (omega arith) pos le here in
      let row_s : cursor_row
            (range_start t (find_cxt col) key (t.row_count + 1) (create_cursor t r))
          ≡ s =
        ap cursor_row at_s ∙ row_back t s (omega arith) in
      let row_e : cursor_row (range_end t (find_cxt col) key (t.row_count + 1) (create_cursor t r))
          ≡ e =
        ap cursor_row at_e ∙ row_back t e (omega arith) in
      let count : (e + 2 ^ 32 - s) % 2 ^ 32 ≡ e - s = omega arith in
      (
        s,
        at_s,
        pos_s,
        rw (row_e, row_s, count) (omega arith),
        rw (row_e, row_s, count) (omega arith),
        λ q a b.
            rw (row_e, row_s, count)
              (within s r e q a b pos_s (omega arith) (omega arith) run_s run_e before after),
      )

  range_of-IsRange :
      (m : Outcome Mdcursor)
      → t.row_count + 1 < 2 ^ 24
      → IsFound t idx key 1 m
      → (result : RangeResult) × (range_of t idx (m >>= with_key key) ≡ ok result)
        × IsRange t idx key result
  unfolding range_of
  range_of-IsRange (ok c) small (i, le, at, holds) = (
    range_around t (find_cxt col) key c,
    rw (create_find_context-IsColumn t idx col is) refl,
    rw at (
        range_around-IsRange (i + 1) (omega arith) (omega arith)
          (ap (λ (r : ℕ). read_column (create_cursor t r) idx) (omega arith) ∙ holds) small),
  )
  range_of-IsRange failed small none = (md_range_not_found, refl, none)
  range_of-IsRange fault small none = absurd none

  called :
      (begin : Mdcursor) (value : ℕ) (keys : List MdKeyInfo)
      → begin.table_of ≡ some t
      → t.is_sorted ≡ true
      → t.is_adding_new_row ≡ false
      → get_table_keys t.table_id ≡ ok keys
      → is_first_key keys idx ≡ true
      → md_find_range_from_cursor begin idx value
        ≡ range_of t idx (find_row_from_cursor begin idx value)
  unfolding md_find_range_from_cursor
  called begin value keys at is_sorted not_adding e first =
      let test : (not t.is_sorted || t.is_adding_new_row) ≡ false =
        rw (is_sorted, not_adding) refl in
      rw (at, test, e, first) refl

  -- In a loaded, sorted table of less than 4 GiB and 2 ^ 24 - 1 rows whose first key is the column,
  -- whose values ascend and are not too far from the key for the 32-bit difference, a search from
  -- the first row for a key that fits the width of the column returns the range of exactly the rows
  -- that hold the key, or that none does.
  pub md_find_range_from_cursor-IsRange :
      (begin : Mdcursor) (value : ℕ) (keys : List MdKeyInfo)
      → begin.table_of ≡ some t
      → cursor_row begin ≡ 1
      → search_key (find_cxt col) value ≡ ok key
      → t.is_sorted ≡ true
      → t.is_adding_new_row ≡ false
      → get_table_keys t.table_id ≡ ok keys
      → is_first_key keys idx ≡ true
      → t.row_count + 1 < 2 ^ 24
      → (result : RangeResult) × (md_find_range_from_cursor begin idx value ≡ ok result)
        × IsRange t idx key result
  md_find_range_from_cursor-IsRange begin value keys at row keyed is_sorted not_adding e first
        small =
      let flag : (t.is_sorted && not t.is_adding_new_row) ≡ true =
        rw (is_sorted, not_adding) refl in
      let some_row : 1 ≤ t.row_count = is.loaded.present in
      let (result, found, range) =
        range_of-IsRange (md_find_row_from_cursor begin idx value) small (
          md_find_row_from_cursor-IsFound t idx col 1 key is (omega arith) some_row fits begin value
            at row keyed flag ascends near) in
      let both : find_row_from_cursor begin idx value
          ≡ (md_find_row_from_cursor begin idx value >>= with_key key) =
        find_row_from_cursor-with_key t idx col 1 key is (omega arith) some_row fits begin value at
          row keyed in
      (
        result,
        called begin value keys at is_sorted not_adding e first ∙ ap (range_of t idx) both ∙ found,
        range,
      )
