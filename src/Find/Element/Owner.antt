-- ===== src/Find/Element/Owner.antt =====
-- The row that `find_range_element` of src/dnmd/query.c finds among rows with ascending lists.
use dnmd.Base.{
  ℕ, zero, suc, ◌+◌, ◌-◌, ◌*◌, ◌%◌, ◌^◌, ◌≤◌, ◌<◌, ◌≡◌, arith, refl, inl, inr, ap, ◌∙◌, bit_and,
  bit_or,
}
use dnmd.Base.{Option, some, Outcome, ok, failed, true, false, Bool-cases, ◌==◌, ◌!=◌, ltb, ◌||◌}
use native.Mathlib.Decide.{ℕ_discrete}
use dnmd.Access.{Mdcursor, create_cursor, cursor_row, access_row}
use dnmd.Access.Bounds.{cursor_access}
use dnmd.Coded.{rid_from_token}
use dnmd.Coded.Tokens.{rid_mod, rid-lt, token_fields}
use dnmd.Context.{Mdcxt}
use dnmd.Cursors.{cursor_move_no_checks, move_to}
use dnmd.Cursors.Moves.{row_back, unchecked, can_move}
use dnmd.Find.{compare_row}
use dnmd.Find.Column.{
  IsColumn, find_cxt, col_at, col_at-lt, accessed, create_find_context-IsColumn,
  compare_row-IsColumn,
}
use dnmd.Find.Element.{
  list_column, element_of, column_at, listed_row, owner_of, find_range_element,
  md_find_cursor_of_range_element, next_token, after_next, last_from, row_for, find_lists,
}
use dnmd.Find.Rows.{row_some, two_or_four, ordered_of_width}
use dnmd.Flags.{mdtc_idx_table, mdtc_idx_coded}
use dnmd.Ids.{mdtid_event, mdtid_property, mdtable_max_count}
use dnmd.Schema.Keys.{table_is_indirect_table}
use dnmd.Query.{type_to_table, target_of, get_column_target, md_get_column_value_as_token}
use dnmd.Schema.Details.{Mdtable, extract_table, column_width}
use dnmd.Search.{is_negative}
use dnmd.Search.Compare.{Orders}
use dnmd.Search.Closest.{IsClosest, mdtable_bsearch_closest-IsClosest}

abbrev pub list_at : ℕ → ℕ → Option (ℕ × ℕ)
list_at id idx = some (id, idx)

abbrev pub with_cxt : Mdcxt → Mdcursor → Outcome (Mdcursor × Mdcxt)
with_cxt cxt c = ok (c, cxt)

-- A column with rows of another table.
pub record IsListColumn (col : ℕ) : Type 0 where
  pub index : (bit_and col (bit_or mdtc_idx_table mdtc_idx_coded) != 0) ≡ true
  pub direct : (bit_and col mdtc_idx_table != 0) ≡ true
  pub known : extract_table col < 56

module _ (t : Mdtable) (idx col : ℕ) (is : IsColumn t idx col) (lists : IsListColumn col)
    (few : t.row_count + 1 < 2 ^ 24)
    (rows_only : (r : ℕ) → 0 < r → r ≤ t.row_count → col_at t col (r - 1) < 2 ^ 24) where
  abbrev val : ℕ → ℕ
  val r = col_at t col (r - 1)

  behind : (i : ℕ) → val (i + 1) ≡ col_at t col i
  behind i = ap (col_at t col) (omega arith)

  target-of :
      (r : ℕ)
      → 0 < r
      → r ≤ t.row_count
      → get_column_target (create_cursor t r) idx ≡ ok (extract_table col, val r)
  unfolding get_column_target target_of
  target-of r pos le =
      let (acxt, made, details, read) = accessed t idx col is r pos le in
      let rid : rid_from_token (val r) ≡ val r =
        omega (arith, rid_mod (val r), rows_only r pos le) in
      let id : ltb (extract_table col) mdtable_max_count ≡ true = ground (arith, lists.known) in
      rw (made, read, details, lists.index, lists.direct, rid, id) refl

  token-of :
      (r : ℕ)
      → 0 < r
      → r ≤ t.row_count
      → md_get_column_value_as_token (create_cursor t r) idx
        ≡ ok (extract_table col * 2 ^ 24 + val r)
  unfolding md_get_column_value_as_token
  token-of r pos le =
      rw
        (
          target-of r pos le,
          token_fields (extract_table col) (val r) (omega (arith, lists.known))
              (rows_only r pos le),
        )
        refl

  -- Behind the last row there is no token.
  no_token : md_get_column_value_as_token (create_cursor t (t.row_count + 1)) idx ≡ failed
  unfolding md_get_column_value_as_token get_column_target access_row
  no_token =
      let back = row_back t (t.row_count + 1) (omega arith) in
      let outside : (t.row_count + 1 == 0 || ltb t.row_count (t.row_count + 1)) ≡ true =
        ground arith in
      rw (cursor_access (create_cursor t (t.row_count + 1)) t idx refl, back, outside) refl

  up :
      (r : ℕ)
      → r ≤ t.row_count
      → cursor_move_no_checks (create_cursor t r) 1 ≡ ok (create_cursor t (r + 1))
  up r le =
      let next : (cursor_row (create_cursor t r) + 1) % 2 ^ 32 ≡ r + 1 =
        omega (arith, row_back t r (omega arith)) in
      unchecked (create_cursor t r) t 1 refl
      ∙ ap (move_to t) next
      ∙ can_move t (r + 1) few (omega arith) (omega arith)

  module _ (row : ℕ) (row_small : row < 2 ^ 24)
      (sorted : (q r : ℕ) → 0 < q → q ≤ r → r ≤ t.row_count → val q ≤ val r) where
    -- The lists up to the row of the cursor start at `row` or before it, those behind it do not.
    abbrev pub IsOwner : Mdcursor → Type 0
    IsOwner c =
        (p : ℕ) × (c ≡ create_cursor t p)
        × (p ≤ t.row_count)
        × ((q : ℕ) → 0 < q → q ≤ p → val q ≤ row)
        × ((q : ℕ) → p < q → q ≤ t.row_count → row < val q)

    -- The row itself, where the next one has another value or none.
    at_row :
        (r : ℕ)
        → 0 < r
        → r ≤ t.row_count
        → val r ≡ row
        → ((q : ℕ) → r < q → q ≤ t.row_count → row < val q)
        → IsOwner (create_cursor t r)
    at_row r pos le e after = (r, refl, le, λ q a b. omega (arith, e, sorted q r a b le), after)

    round :
        (fuel r : ℕ) (m : Outcome (Mdcursor × ℕ))
        → next_token idx (create_cursor t r) ≡ m
        → last_from (suc fuel) idx row (create_cursor t r)
          ≡ after_next row (create_cursor t r) (last_from fuel idx row) m
    unfolding last_from
    round fuel r m e = ap (after_next row (create_cursor t r) (last_from fuel idx row)) e

    at_last : next_token idx (create_cursor t t.row_count) ≡ failed
    unfolding next_token
    at_last = rw (up t.row_count (omega arith), no_token) refl

    with_token : Mdcursor → ℕ → Outcome (Mdcursor × ℕ)
    with_token c tk = ok (c, tk)

    token_next :
        (r : ℕ)
        → r < t.row_count
        → next_token idx (create_cursor t r)
          ≡ with_token (create_cursor t (r + 1)) (extract_table col * 2 ^ 24 + val (r + 1))
    unfolding next_token with_token
    token_next r lt = rw (up r (omega arith), token-of (r + 1) (omega arith) (omega arith)) refl

    last_from-IsOwner :
        (fuel r : ℕ)
        → t.row_count < r + fuel
        → 0 < r
        → r ≤ t.row_count
        → val r ≡ row
        → (c : Mdcursor) × (last_from fuel idx row (create_cursor t r) ≡ ok c) × IsOwner c
    unfolding last_from with_token
    last_from-IsOwner zero r enough pos le e = absurd (omega arith)
    last_from-IsOwner (suc fuel) r enough pos le e = elim (ℕ_discrete r t.row_count) [
      | yes last ↦ (
        create_cursor t r,
        round fuel r failed (ap (λ (k : ℕ). next_token idx (create_cursor t k)) last ∙ at_last),
        at_row r pos le e (λ q a b. absurd (omega arith)),
      )
      | no more ↦
          let rid : rid_from_token (extract_table col * 2 ^ 24 + val (r + 1)) ≡ val (r + 1) =
            omega (
              arith,
              rid_mod (extract_table col * 2 ^ 24 + val (r + 1)),
              rows_only (r + 1) (omega arith) (omega arith),
            ) in
          let went = round fuel r _ (token_next r (omega arith)) in
          elim (Bool-cases (val (r + 1) == row)) [
            | inl same ↦
                let (c, found, owner) =
                  last_from-IsOwner fuel (r + 1) (omega arith) (omega arith) (omega arith)
                    (ground arith) in
                (c, went ∙ rw (rid, same) found, owner)
            | inr other ↦
                let above : row < val (r + 1) =
                  ground (arith, e, sorted r (r + 1) pos (omega arith) (omega arith)) in
                (
                  create_cursor t r,
                  went ∙ rw (rid, other) refl,
                  at_row r pos le e (λ q a b.
                      omega (arith, above, sorted (r + 1) q (omega arith) (omega arith) b)),
                )
          ]
    ]

    module _ (fits : row < 256 ^ column_width col) where
      orders :
          (i : ℕ)
          → i < t.row_count
          → Orders
              (compare_row (find_cxt col) t.contents.ptr row (0 + t.row_size_bytes * i))
              row
              (col_at t col i)
      orders i lt =
          let address : 0 + t.row_size_bytes * i ≡ t.row_size_bytes * i = omega arith in
          let few_bits : col_at t col i < 2 ^ 24 =
            omega (arith, behind i, rows_only (i + 1) (omega arith) (omega arith)) in
          rw (address, compare_row-IsColumn t idx col is row i lt)
            (ordered_of_width (column_width col) row (col_at t col i)
              (two_or_four t idx col 1 row is (omega arith) (omega arith) fits) fits
              (col_at-lt t idx col is i) (omega arith) (omega arith))

      -- What follows a search that ends at the row number `i`.
      row_for-IsOwner :
          (res found : ℕ)
          → 1 ≤ found
          → IsClosest (col_at t col) row t.row_count res (found - 1)
          → (c : Mdcursor) × (row_for t idx row (res, found) ≡ ok c) × IsOwner c
      unfolding row_for
      row_for-IsOwner res found pos closest = elim (Bool-cases (is_negative res)) [
        | inl less ↦
            let (first, above) = closest.below_all less in
            let none_before : (found + 2 ^ 32 - 1) % 2 ^ 32 ≡ 0 = omega arith in
            (
              create_cursor t 0,
              rw (less, none_before) refl,
              (
                0,
                refl,
                omega arith,
                λ q a b. absurd (omega arith),
                λ q a b. above (q - 1) (omega arith),
              ),
            )
        | inr not_less ↦ elim (Bool-cases (res == 0)) [
          | inl hit ↦
              let holds : col_at t col (found - 1) ≡ row = closest.equal (ground arith) in
              let (c, e, owner) =
                last_from-IsOwner (t.row_count + 1) found (omega arith) (omega arith)
                  (omega (arith, closest.in_table)) holds in
              (c, rw (not_less, hit) e, owner)
          | inr miss ↦
              let (below, above) = closest.above (ground arith) not_less in
              (
                create_cursor t found,
                rw (not_less, miss) refl,
                (
                  found,
                  refl,
                  omega (arith, closest.in_table),
                  λ q a b.
                      omega (arith, below, sorted q found a b (omega (arith, closest.in_table))),
                  λ q a b. above (q - 1) (omega arith) (omega arith),
                ),
              )
        ]
      ]

      -- Of a loaded table of less than 2 ^ 24 - 1 rows, whose column ascends and holds rows of 24 bits,
      -- the search returns the last row whose list starts at `row` or before it, in a run of empty
      -- lists too, or row 0 where all lists start behind it.
      pub find_lists-IsOwner : (c : Mdcursor) × (find_lists t idx row ≡ ok c) × IsOwner c
      unfolding find_lists
      find_lists-IsOwner =
          let (one, closest) =
            mdtable_bsearch_closest-IsClosest (compare_row (find_cxt col) t.contents.ptr row)
              t.row_size_bytes (col_at t col) 0 row t.row_count orders
              (λ i j p q. omega (
                arith,
                behind i,
                behind j,
                sorted (i + 1) (j + 1) (omega arith) (omega arith) (omega arith),
              ))
              (row_some t idx col 1 row is (omega arith) is.loaded.present fits)
              is.loaded.present in
          let (c, e, owner) = row_for-IsOwner _ _ one closest in
          (c, rw (create_find_context-IsColumn t idx col is) e, owner)

  searched :
      (cxt : Mdcxt) (table_id row id : ℕ) (c : Mdcursor)
      → type_to_table cxt id ≡ ok t
      → table_is_indirect_table (extract_table col) ≡ false
      → (table_id == mdtid_event || table_id == mdtid_property) ≡ false
      → find_lists t idx row ≡ ok c
      → element_of cxt table_id row (list_at id idx) ≡ with_cxt cxt c
  unfolding element_of listed_row owner_of
  searched cxt table_id row id c target direct owned found =
      rw (target, column_at, is.column, direct, found, owned) refl

  -- For a row of a table with direct lists and without a map to its owner, the call returns the last
  -- row, in a loaded table as of `find_lists`, whose list starts at that row or before it, or row 0
  -- where all lists start behind it.
  pub md_find_cursor_of_range_element-IsOwner :
      (cxt : Mdcxt) (element : Mdcursor) (table : Mdtable) (id : ℕ)
      → element.table_of ≡ some table
      → list_column table.table_id ≡ list_at id idx
      → type_to_table cxt id ≡ ok t
      → table_is_indirect_table (extract_table col) ≡ false
      → (table.table_id == mdtid_event || table.table_id == mdtid_property) ≡ false
      → (ascending : (q r : ℕ) → 0 < q → q ≤ r → r ≤ t.row_count → val q ≤ val r)
      → cursor_row element < 256 ^ column_width col
      → (c : Mdcursor) × (md_find_cursor_of_range_element cxt element ≡ with_cxt cxt c)
        × IsOwner (cursor_row element) (rid-lt element.row_of) ascending c
  unfolding md_find_cursor_of_range_element find_range_element
  md_find_cursor_of_range_element-IsOwner cxt element table id at listed target direct owned
        ascending fits =
      let (c, found, owner) =
        find_lists-IsOwner (cursor_row element) (rid-lt element.row_of) ascending fits in
      (
        c,
        rw (at, listed)
            (searched cxt table.table_id (cursor_row element) id c target direct owned found),
        owner,
      )
