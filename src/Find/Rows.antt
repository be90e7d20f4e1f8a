-- ===== src/Find/Rows.antt =====
-- What `md_find_row_from_cursor` of src/dnmd/query.c finds in a loaded table.
use dnmd.Base.{
  ℕ, ◌+◌, ◌-◌, ◌*◌, ◌/◌, ◌%◌, ◌^◌, ◌≤◌, ◌<◌, ◌≡◌, ◌≢◌, ◌⊎◌, ◌↔◌, arith, refl, inl, inr, ap, ◌∙◌,
  sym, subst,
}
use dnmd.Base.{
  Option, some, none, Outcome, ok, failed, fault, ok-injective, ◌>>=◌, true, false, ◌==◌, ltb, ◌||◌,
  ◌&&◌, not, if◌then◌else◌,
}
use dnmd.Access.{Mdcursor, create_cursor, cursor_row, read_column}
use dnmd.Access.Bounds.{column_inside, found-IsSized, widths}
use dnmd.Find.{
  find_row_in, find_row_from_cursor, md_find_row_from_cursor, find_row_address, found_cursor,
  found_row, search_key, compare_row,
}
use dnmd.Find.Column.{
  IsColumn, find_cxt, col_at, col_at-lt, create_find_context-IsColumn, read_column-IsColumn,
  compare_row-IsColumn, start_of,
}
use dnmd.Schema.Details.{Mdtable, column_width}
use dnmd.Search.{col_compare_2bytes, col_compare_4bytes, md_bsearch, md_lsearch}
use dnmd.Search.Binary.{Answers, md_bsearch-Answers}
use dnmd.Search.Compare.{
  Orders, col_compare_2bytes-Orders, col_compare_4bytes-Orders_iff, col_compare_4bytes-equal,
}
use dnmd.Search.Linear.{FirstAnswers, md_lsearch-FirstAnswers}
use native.Mathlib.Nat.{mul-div_right}

-- The row `r` holds `key` in the column `idx`.
abbrev pub Holds : Mdtable → ℕ → ℕ → ℕ → Type 0
Holds t idx key r = read_column (create_cursor t r) idx ≡ ok key

-- What a search from the row `first` on promises: the cursor of the row `i + 1` where the row
-- `first + i` holds the key, or that no row from `first` on holds it.
abbrev pub IsFound : Mdtable → ℕ → ℕ → ℕ → Outcome Mdcursor → Type 0
IsFound t idx key first (ok c) =
    (i : ℕ) × (first + i ≤ t.row_count)
    × (c ≡ create_cursor t (i + 1))
    × Holds t idx key (first + i)
IsFound t idx key first failed =
    (r : ℕ) → first ≤ r → r ≤ t.row_count → read_column (create_cursor t r) idx ≢ ok key
IsFound t idx key first fault = ⊥

-- The row is also the first one that holds the key.
abbrev pub IsFirstFound : Mdtable → ℕ → ℕ → ℕ → Outcome Mdcursor → Type 0
IsFirstFound t idx key first (ok c) =
    (i : ℕ) × (first + i ≤ t.row_count)
    × (c ≡ create_cursor t (i + 1))
    × Holds t idx key (first + i)
    × ((r : ℕ) → first ≤ r → r < first + i → read_column (create_cursor t r) idx ≢ ok key)
IsFirstFound t idx key first failed = IsFound t idx key first failed
IsFirstFound t idx key first fault = ⊥

-- The cursor of the result of a search.
abbrev cursor_of : Mdtable → ℕ → Option ℕ → Outcome Mdcursor
cursor_of t start o = elim o [ none ↦ failed | some row ↦ found_cursor t start row ]

of_width :
    (w key v : ℕ)
    → (w ≡ 2) ⊎ (w ≡ 4)
    → key < 256 ^ w
    → v < 256 ^ w
    → ((if w == 2 then col_compare_2bytes (key % 2 ^ 16) v else col_compare_4bytes key v) ≡ 0)
      ↔ (key ≡ v)
of_width w key v (inl e) h k =
    let h2 : key < 2 ^ 16 = subst (λ (n : ℕ). key < 256 ^ n) e h in
    let k2 : v < 2 ^ 16 = subst (λ (n : ℕ). v < 256 ^ n) e k in
    let low : key % 2 ^ 16 ≡ key = omega arith in
    rw (e, low) (col_compare_2bytes-Orders key v h2 k2).equal
of_width w key v (inr e) h k =
    let h4 : key < 2 ^ 32 = subst (λ (n : ℕ). key < 256 ^ n) e h in
    let k4 : v < 2 ^ 32 = subst (λ (n : ℕ). v < 256 ^ n) e k in
    rw e (col_compare_4bytes-equal key v h4 k4)

pub ordered_of_width :
    (w key v : ℕ)
    → (w ≡ 2) ⊎ (w ≡ 4)
    → key < 256 ^ w
    → v < 256 ^ w
    → key < v + 2 ^ 31
    → v ≤ key + 2 ^ 31
    → Orders
        (if w == 2 then col_compare_2bytes (key % 2 ^ 16) v else col_compare_4bytes key v)
        key
        v
ordered_of_width w key v (inl e) h k near1 near2 =
    let h2 : key < 2 ^ 16 = subst (λ (n : ℕ). key < 256 ^ n) e h in
    let k2 : v < 2 ^ 16 = subst (λ (n : ℕ). v < 256 ^ n) e k in
    let low : key % 2 ^ 16 ≡ key = omega arith in
    rw (e, low) (col_compare_2bytes-Orders key v h2 k2)
ordered_of_width w key v (inr e) h k near1 near2 =
    let h4 : key < 2 ^ 32 = subst (λ (n : ℕ). key < 256 ^ n) e h in
    let k4 : v < 2 ^ 32 = subst (λ (n : ℕ). v < 256 ^ n) e k in
    rw e ((col_compare_4bytes-Orders_iff key v h4 k4).1 (near1, near2))

abbrev pub with_key : ℕ → Mdcursor → Outcome (Mdcursor × ℕ)
with_key key c = ok (c, key)

pub same_value : {r : Outcome ℕ} {a b : ℕ} → r ≡ ok a → r ≡ ok b → a ≡ b
same_value h k = ok-injective (sym h ∙ k)

module _ (t : Mdtable) (idx col first key : ℕ) (is : IsColumn t idx col) (pos : 0 < first)
    (le : first ≤ t.row_count) (fits : key < 256 ^ column_width col) where
  abbrev rows : ℕ
  rows = t.row_count - first + 1

  abbrev start : ℕ
  start = t.row_size_bytes * (first - 1)

  -- The value of the row number `i` of the rows searched.
  abbrev val : ℕ → ℕ
  val i = col_at t col (first - 1 + i)

  pub two_or_four : (column_width col ≡ 2) ⊎ (column_width col ≡ 4)
  two_or_four =
      elim (widths col (found-IsSized t.column_details idx col is.loaded.one_width is.column)) [
        | inl (w, _) ↦ inl w
        | inr (w, _) ↦ inr w
      ]

  pub row_some : 0 < t.row_size_bytes
  row_some =
      let within =
        column_inside t.column_details 0 t.row_size_bytes idx col is.loaded.tiles is.column in
      elim two_or_four [ inl e ↦ omega (arith, within, e) | inr e ↦ omega (arith, within, e) ]

  compare_at :
      (i : ℕ)
      → i < rows
      → compare_row (find_cxt col) t.contents.ptr key (start + t.row_size_bytes * i) ≡ (
          if column_width col == 2
          then col_compare_2bytes (key % 2 ^ 16) (val i)
          else col_compare_4bytes key (val i))
  compare_at i lt =
      let address : start + t.row_size_bytes * i ≡ t.row_size_bytes * (first - 1 + i) =
        grind arith in
      rw address (compare_row-IsColumn t idx col is key (first - 1 + i) (omega arith))

  equal_at :
      (i : ℕ)
      → i < rows
      → (compare_row (find_cxt col) t.contents.ptr key (start + t.row_size_bytes * i) ≡ 0)
        ↔ (key ≡ val i)
  equal_at i lt = rw (compare_at i lt) (
      of_width (column_width col) key (val i) two_or_four fits
        (col_at-lt t idx col is (first - 1 + i)))

  held : (i : ℕ) → i < rows → read_column (create_cursor t (first + i)) idx ≡ ok (val i)
  held i lt =
      let number : first + i - 1 ≡ first - 1 + i = omega arith in
      read_column-IsColumn t idx col is (first + i) (omega arith) (omega arith)
      ∙ ap (λ (j : ℕ). ok (col_at t col j)) number

  found_cursor-at :
      (i : ℕ)
      → i + 1 ≤ t.row_count
      → found_cursor t start (start + t.row_size_bytes * i) ≡ ok (create_cursor t (i + 1))
  unfolding found_cursor
  found_cursor-at i h =
      let d : start + t.row_size_bytes * i - start ≡ t.row_size_bytes * i = omega arith in
      let q : (t.row_size_bytes * i) / t.row_size_bytes ≡ i = mul-div_right i row_some in
      let n : (i % 2 ^ 32 + 1) % 2 ^ 32 ≡ i + 1 = omega (arith, is.rows_small) in
      let room : ltb t.row_count (i + 1) ≡ false = ground arith in rw (d, q, n, room) refl

  none-IsFound : ((i : ℕ) → i < rows → val i ≢ key) → IsFound t idx key first failed
  none-IsFound h = λ r a b e.
      let p : r - first < rows = omega arith in
      let n : first + (r - first) ≡ r = omega arith in
      h (r - first) p (
        same_value (held (r - first) p) (ap (λ (k : ℕ). read_column (create_cursor t k) idx) n ∙ e))

  cursor_of-IsFound :
      (o : Option ℕ)
      → Answers t.row_size_bytes val start key 0 rows o
      → IsFound t idx key first (cursor_of t start o)
  cursor_of-IsFound none h = none-IsFound (λ i lt. h i (omega arith) (omega arith))
  cursor_of-IsFound (some row) (i, a, b, at, e) =
      rw (at, found_cursor-at i (omega arith))
        (i, omega arith, refl, held i (omega arith) ∙ ap (λ (k : ℕ). ok k) e)

  cursor_of-IsFirstFound :
      (o : Option ℕ)
      → FirstAnswers t.row_size_bytes val start key 0 rows o
      → IsFirstFound t idx key first (cursor_of t start o)
  cursor_of-IsFirstFound none h = none-IsFound (λ i lt. h i (omega arith) lt)
  cursor_of-IsFirstFound (some row) (i, a, b, at, e, before) =
      rw (at, found_cursor-at i (omega arith))
        (
          i,
          omega arith,
          refl,
          held i b ∙ ap (λ (k : ℕ). ok k) e,
          λ r p q f.
              let n : first + (r - first) ≡ r = omega arith in
              before (r - first) (omega arith) (omega arith) (
                same_value (held (r - first) (omega arith))
                  (ap (λ (k : ℕ). read_column (create_cursor t k) idx) n ∙ f)),
        )

  found_row-with_key :
      (o : Option ℕ) → found_row t start key o ≡ (cursor_of t start o >>= with_key key)
  unfolding found_row
  found_row-with_key none = refl
  found_row-with_key (some row) = refl

  first_with_key : (m : Outcome Mdcursor) → (m >>= with_key key >>= λ found. ok found.0) ≡ m
  first_with_key (ok c) = refl
  first_with_key failed = refl
  first_with_key fault = refl

  first_only :
      (o : Option ℕ) → (found_row t start key o >>= λ found. ok found.0) ≡ cursor_of t start o
  unfolding found_row
  first_only none = refl
  first_only (some row) = first_with_key (found_cursor t start row)

  -- The call is the search of the rows, and the cursor of what it returns.
  module _ (begin : Mdcursor) (value : ℕ) (at : begin.table_of ≡ some t)
      (row : cursor_row begin ≡ first) (keyed : search_key (find_cxt col) value ≡ ok key) where
    find-found_row :
        find_row_from_cursor begin idx value
        ≡ found_row t start key (find_row_address t (find_cxt col) key first)
    unfolding find_row_from_cursor find_row_in
    find-found_row =
        let inside : (first == 0 || ltb t.row_count first) ≡ false = ground arith in
        rw
          (
            at,
            row,
            inside,
            create_find_context-IsColumn t idx col is,
            keyed,
            start_of t idx col is first pos le,
          )
          refl

    find-cursor_of :
        md_find_row_from_cursor begin idx value
        ≡ cursor_of t start (find_row_address t (find_cxt col) key first)
    unfolding md_find_row_from_cursor
    find-cursor_of = rw find-found_row (first_only (find_row_address t (find_cxt col) key first))

    -- Beside the cursor, the key is returned.
    pub find_row_from_cursor-with_key :
        find_row_from_cursor begin idx value
        ≡ (md_find_row_from_cursor begin idx value >>= with_key key)
    find_row_from_cursor-with_key =
        rw (find-cursor_of, find-found_row)
          (found_row-with_key (find_row_address t (find_cxt col) key first))

    find_row_address-linear :
        (t.is_sorted && not t.is_adding_new_row) ≡ false
        → find_row_address t (find_cxt col) key first
          ≡ md_lsearch (compare_row (find_cxt col) t.contents.ptr key) t.row_size_bytes start rows
    unfolding find_row_address
    find_row_address-linear e = rw (e, start_of t idx col is first pos le) refl

    find_row_address-binary :
        (t.is_sorted && not t.is_adding_new_row) ≡ true
        → find_row_address t (find_cxt col) key first
          ≡ md_bsearch (compare_row (find_cxt col) t.contents.ptr key) t.row_size_bytes start rows
    unfolding find_row_address
    find_row_address-binary e = rw (e, start_of t idx col is first pos le) refl

    -- In a loaded table of less than 4 GiB and 2 ^ 24 rows that is not sorted, or that a row is being
    -- added to, a search from the row `first` for a key that fits the width of the column fails only
    -- where no row from `first` on holds the key. Else it returns the row `i + 1`, where `first + i`
    -- is the first row from `first` on that holds it: for a search from row 1 the row itself.
    pub md_find_row_from_cursor-IsFirstFound :
        (t.is_sorted && not t.is_adding_new_row) ≡ false
        → IsFirstFound t idx key first (md_find_row_from_cursor begin idx value)
    md_find_row_from_cursor-IsFirstFound e =
        rw (find-cursor_of, find_row_address-linear e)
          (cursor_of-IsFirstFound _ (
            md_lsearch-FirstAnswers (compare_row (find_cxt col) t.contents.ptr key) t.row_size_bytes
              val start key rows equal_at))

    -- In a loaded, sorted table of less than 4 GiB and 2 ^ 24 rows whose values ascend from the row
    -- `first` on and are not too far from the key for the 32-bit difference, a search from `first`
    -- for a key that fits the width of the column fails only where no row from `first` on holds the
    -- key. Else it returns the row `i + 1`, where the row `first + i` holds the key: for a search
    -- from row 1 a row that holds it.
    pub md_find_row_from_cursor-IsFound :
        (t.is_sorted && not t.is_adding_new_row) ≡ true
        → ((r r' v v' : ℕ)
            → first ≤ r
            → r ≤ r'
            → r' ≤ t.row_count
            → Holds t idx v r
            → Holds t idx v' r'
            → v ≤ v')
        → ((r v : ℕ)
            → first ≤ r
            → r ≤ t.row_count
            → Holds t idx v r
            → (key < v + 2 ^ 31) × (v ≤ key + 2 ^ 31))
        → IsFound t idx key first (md_find_row_from_cursor begin idx value)
    md_find_row_from_cursor-IsFound e ascends near =
        rw (find-cursor_of, find_row_address-binary e)
          (cursor_of-IsFound _ (
            md_bsearch-Answers (compare_row (find_cxt col) t.contents.ptr key) t.row_size_bytes val
              start key rows
              (λ i lt.
                let (n1, n2) = near (first + i) (val i) (omega arith) (omega arith) (held i lt) in
                rw (compare_at i lt) (
                  ordered_of_width (column_width col) key (val i) two_or_four fits
                    (col_at-lt t idx col is (first - 1 + i)) n1 n2))
              (λ i j p q.
                ascends (first + i) (first + j) (val i) (val j) (omega arith) (omega arith)
                  (omega arith) (held i (omega arith)) (held j q))))
