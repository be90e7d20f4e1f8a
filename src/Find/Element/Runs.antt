-- ===== src/Find/Element/Runs.antt =====
-- A run on two types, the first one with the fields 1 and 2 and the second one with those from 3 on.
use dnmd.Base.{ℕ, ◌-◌, ◌*◌, ◌^◌, ◌≤◌, ◌<◌, ◌≡◌, arith, refl, inl, ap, ◌∙◌}
use dnmd.Base.{List, [], ◌∷◌, true, false}
use native.Mathlib.Decide.{ℕ_discrete}
use dnmd.Access.{Mdcursor, create_cursor}
use dnmd.Bytes.Check.{is_stream-IsStream}
use dnmd.Coded.Tokens.{rid-lt}
use dnmd.Context.{Mdcxt}
use dnmd.Find.Column.{IsColumn, col_at}
use dnmd.Find.Element.{list_column, md_find_cursor_of_range_element}
use dnmd.Find.Element.Owner.{
  IsListColumn, IsOwner, with_cxt, md_find_cursor_of_range_element-IsOwner,
}
use dnmd.Samples.{context_of, empty_table}
use dnmd.Schema.Details.{Mdtable}
use dnmd.Schema.Keys.{table_is_indirect_table}
use dnmd.Tables.Loaded.{IsLoaded}

abbrev row_with_list : ℕ → List ℕ → List ℕ
row_with_list row rest = 0 ∷ 0 ∷ 0 ∷ 0 ∷ 0 ∷ 0 ∷ 0 ∷ 0 ∷ row ∷ 0 ∷ rest

abbrev types : Mdtable
types = record {
  contents = record { ptr = row_with_list 1 (row_with_list 3 []); size = 20 };
  row_count = 2;
  row_size_bytes = 10;
  column_count = 5;
  is_sorted = false;
  is_adding_new_row = false;
  table_id = 0x2;
  initialized = true;
  column_details = 0x11 ∷ 0x211 ∷ 0x411 ∷ 0x611 ∷ 0x40814 ∷ [];
}

types-IsLoaded : IsLoaded types
types-IsLoaded = record {
  tiles = (refl, (refl, (refl, (refl, (refl, refl)))));
  one_width = (inl refl, (inl refl, (inl refl, (inl refl, (inl refl, tt)))));
  columns = refl;
  row_at_most = omega arith;
  filled = refl;
  valid = is_stream-IsStream types.contents refl;
  present = omega arith;
}

list-IsColumn : IsColumn types 4 0x40814
list-IsColumn = record {
  loaded = types-IsLoaded;
  bytes_small = omega arith;
  rows_small = omega arith;
  in_columns = omega arith;
  column = refl;
}

list-IsListColumn : IsListColumn 0x40814
list-IsListColumn = record { index = refl; direct = refl; known = omega arith }

abbrev first_field : ℕ → ℕ
first_field r = col_at types 0x40814 (r - 1)

first_of_one : first_field 1 ≡ 1
first_of_one = refl

first_of_two : first_field 2 ≡ 3
first_of_two = refl

first_fields : (r : ℕ) → 0 < r → r ≤ 2 → first_field r ≡ 2 * r - 1
first_fields r pos le = elim (ℕ_discrete r 1) [
  | yes one ↦ ap first_field one ∙ first_of_one ∙ omega (arith, one)
  | no other ↦
      let two : r ≡ 2 = omega arith in ap first_field two ∙ first_of_two ∙ omega (arith, two)
]

rows_only : (r : ℕ) → 0 < r → r ≤ 2 → first_field r < 2 ^ 24
rows_only r pos le = omega (arith, first_fields r pos le)

ascending : (q r : ℕ) → 0 < q → q ≤ r → r ≤ 2 → first_field q ≤ first_field r
ascending q r pos le two =
    omega (arith, first_fields q pos (omega arith), first_fields r (omega arith) two)

abbrev fields : Mdtable
fields = record empty_table { row_count = 4; table_id = 0x4 }

abbrev second_field : Mdcursor
second_field = create_cursor fields 2

abbrev cxt : Mdcxt
cxt = context_of 2 (types ∷ [])

md_find_cursor_of_range_element-IsOwner_example :
    (c : Mdcursor) × (md_find_cursor_of_range_element cxt second_field ≡ with_cxt cxt c)
    × IsOwner types 4 0x40814 list-IsColumn list-IsListColumn
        (omega arith)
        rows_only
        2
        (rid-lt 2)
        ascending
        c
unfolding list_column table_is_indirect_table
md_find_cursor_of_range_element-IsOwner_example =
    md_find_cursor_of_range_element-IsOwner types 4 0x40814 list-IsColumn list-IsListColumn
      (omega arith) rows_only cxt second_field fields 2 refl refl refl refl refl ascending
      (omega arith)
