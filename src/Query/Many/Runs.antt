-- ===== src/Query/Many/Runs.antt =====
-- A run of the bulk read on the first column of a NestedClass table, past its last row.
use dnmd.Base.{◌≡◌, arith, refl}
use dnmd.Access.{create_cursor}
use dnmd.Find.Column.{IsColumn}
use dnmd.Query.Many.{md_get_many_rows_column_value_as_token}
use dnmd.Query.Many.Singles.{tokens_of, md_get_many_rows_column_value_as_token-tokens_of}
use dnmd.Samples.{nested_class, nested_class-IsLoaded}

nested_class-IsColumn : IsColumn nested_class 0 0x20014
nested_class-IsColumn = record {
  loaded = nested_class-IsLoaded;
  bytes_small = omega arith;
  rows_small = omega arith;
  in_columns = omega arith;
  column = refl;
}

md_get_many_rows_column_value_as_token-tokens_of_example :
    md_get_many_rows_column_value_as_token (create_cursor nested_class 1) 0 5
    ≡ tokens_of nested_class 0 2 1
md_get_many_rows_column_value_as_token-tokens_of_example =
    md_get_many_rows_column_value_as_token-tokens_of nested_class 0 0x20014 nested_class-IsColumn 0
      5 (omega arith) (omega arith) (omega arith)
