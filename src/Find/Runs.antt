-- ===== src/Find/Runs.antt =====
-- Runs of the searches for rows on a NestedClass table with two rows.
use dnmd.Base.{ℕ, ◌+◌, ◌-◌, ◌^◌, ◌≤◌, ◌<◌, ◌≡◌, arith, refl, ◌∙◌, ap}
use dnmd.Base.{[], ◌∷◌, false, ok}
use native.Mathlib.Decide.{ℕ_discrete}
use dnmd.Access.{Mdcursor, create_cursor, read_column}
use dnmd.Find.{md_find_row_from_cursor, search_key}
use dnmd.Find.Column.{IsColumn, find_cxt, col_at, col_at-lt, read_column-IsColumn}
use dnmd.Find.Range.{RangeResult, md_find_range_from_cursor}
use dnmd.Find.Range.Whole.{IsRange, md_find_range_from_cursor-IsRange}
use dnmd.Find.Rows.{
  Holds, IsFound, IsFirstFound, same_value, md_find_row_from_cursor-IsFirstFound,
  md_find_row_from_cursor-IsFound,
}
use dnmd.Samples.{nested_class, nested_class-IsLoaded}
use dnmd.Schema.Details.{Mdtable}
use dnmd.Schema.Keys.{get_table_keys, table_keys}
use dnmd.Tables.Loaded.{IsLoaded}

abbrev first_row : Mdcursor
first_row = create_cursor nested_class 1

first-IsColumn : IsColumn nested_class 0 0x20014
first-IsColumn = record {
  loaded = nested_class-IsLoaded;
  bytes_small = omega arith;
  rows_small = omega arith;
  in_columns = omega arith;
  column = refl;
}

three_keyed : search_key (find_cxt 0x20014) 3 ≡ ok 3
unfolding search_key
three_keyed = refl

value_of :
    (r v : ℕ) → 1 ≤ r → r ≤ 2 → Holds nested_class 0 v r → v ≡ col_at nested_class 0x20014 (r - 1)
value_of r v pos le h =
    same_value h (read_column-IsColumn nested_class 0 0x20014 first-IsColumn r pos le)

near_three :
    (r v : ℕ) → 1 ≤ r → r ≤ 2 → Holds nested_class 0 v r → (3 < v + 2 ^ 31) × (v ≤ 3 + 2 ^ 31)
near_three r v pos le h =
    let small : col_at nested_class 0x20014 (r - 1) < 256 ^ 2 =
      col_at-lt nested_class 0 0x20014 first-IsColumn (r - 1) in
    let e = value_of r v pos le h in (omega arith, omega arith)

first_value : col_at nested_class 0x20014 0 ≡ 1
first_value = refl

second_value : col_at nested_class 0x20014 1 ≡ 3
second_value = refl

ascending :
    (r r' v v' : ℕ)
    → 1 ≤ r
    → r ≤ r'
    → r' ≤ 2
    → Holds nested_class 0 v r
    → Holds nested_class 0 v' r'
    → v ≤ v'
ascending r r' v v' pos le two h k = elim (ℕ_discrete r r') [
  | yes same ↦
      let e : v ≡ v' =
        same_value h (ap (λ (q : ℕ). read_column (create_cursor nested_class q) 0) same ∙ k) in
      omega (arith, e)
  | no other ↦
      let at1 : r - 1 ≡ 0 = omega arith in
      let at2 : r' - 1 ≡ 1 = omega arith in
      let e1 : v ≡ 1 =
        value_of r v pos (omega arith) h ∙ ap (col_at nested_class 0x20014) at1 ∙ first_value in
      let e2 : v' ≡ 3 =
        value_of r' v' (omega arith) two k ∙ ap (col_at nested_class 0x20014) at2 ∙ second_value in
      omega (arith, e1, e2)
]

md_find_row_from_cursor-IsFound_example :
    IsFound nested_class 0 3 1 (md_find_row_from_cursor first_row 0 3)
md_find_row_from_cursor-IsFound_example =
    md_find_row_from_cursor-IsFound nested_class 0 0x20014 1 3 first-IsColumn (omega arith)
      (omega arith) (omega arith) first_row 3 refl refl three_keyed refl ascending near_three

md_find_range_from_cursor-IsRange_example :
    (result : RangeResult) × (md_find_range_from_cursor first_row 0 3 ≡ ok result)
    × IsRange nested_class 0 3 result
unfolding get_table_keys table_keys
md_find_range_from_cursor-IsRange_example =
    md_find_range_from_cursor-IsRange nested_class 0 0x20014 3 first-IsColumn (omega arith)
      ascending near_three first_row 3 (record { index = 0; descending = false } ∷ []) refl refl
      three_keyed refl refl refl refl (omega arith)

-- The table is not known to be sorted, and the search starts at the second row.
abbrev unsorted : Mdtable
unsorted = record nested_class { is_sorted = false }

unsorted-IsLoaded : IsLoaded unsorted
unsorted-IsLoaded = record {
  tiles = nested_class-IsLoaded.tiles;
  one_width = nested_class-IsLoaded.one_width;
  columns = refl;
  row_at_most = omega arith;
  filled = refl;
  valid = nested_class-IsLoaded.valid;
  present = omega arith;
}

unsorted-IsColumn : IsColumn unsorted 0 0x20014
unsorted-IsColumn = record {
  loaded = unsorted-IsLoaded;
  bytes_small = omega arith;
  rows_small = omega arith;
  in_columns = omega arith;
  column = refl;
}

md_find_row_from_cursor-IsFirstFound_example :
    IsFirstFound unsorted 0 3 2 (md_find_row_from_cursor (create_cursor unsorted 2) 0 3)
md_find_row_from_cursor-IsFirstFound_example =
    md_find_row_from_cursor-IsFirstFound unsorted 0 0x20014 2 3 unsorted-IsColumn (omega arith)
      (omega arith) (omega arith) (create_cursor unsorted 2) 3 refl refl three_keyed refl
