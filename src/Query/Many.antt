-- ===== src/Query/Many.antt =====
-- The tokens of a column down the rows: `md_get_many_rows_column_value_as_token` of
-- src/dnmd/query.c.
use dnmd.Base.{ℕ, zero, suc, bit_and, bit_or}
use dnmd.Base.{List, [], ◌∷◌, Bool, ◌&&◌, ltb, ◌!=◌, if◌then◌else◌}
use dnmd.Base.{Outcome, ok, failed, fault, ◌>>=◌, ◌>>◌, guard}
use dnmd.Access.{Mdcursor}
use dnmd.Access.Bulk.{
  BulkAccessCxt, create_bulk_access_context, read_column_data_and_advance, next_row,
}
use dnmd.Coded.{create_token_type}
use dnmd.Flags.{mdtc_idx_table, mdtc_idx_coded}
use dnmd.Ids.{mdtable_max_count}
use dnmd.Query.{target_of}
mod Runs
pub mod Singles

unfoldable pub token_for : ℕ → ℕ → Outcome ℕ
token_for col raw = do
  (table_id, table_row) ← target_of col raw
  guard (ltb table_id mdtable_max_count)
  ok (bit_or (create_token_type table_id) table_row)

-- The loop. `more` is that `out_length` is more than 1. Each round reads a row; `out_length` rounds
-- are enough, and where they are used up there is no result.
pub tokens_from : ℕ → Bool → BulkAccessCxt → Outcome (List ℕ)
tokens_from zero more acxt = fault
tokens_from (suc fuel) more acxt = read_column_data_and_advance acxt >>= λ read.
    token_for acxt.col_details read.0 >>= λ token.
    (let rest = tokens_from fuel more (next_row read.1).0 >>= λ tokens. ok (token ∷ tokens) in
      if more && (next_row read.1).1 then rest else ok (token ∷ []))

-- The tokens, whose number the source returns, or -1 where the call fails.
unfoldable pub md_get_many_rows_column_value_as_token : Mdcursor → ℕ → ℕ → Outcome (List ℕ)
unfolding tokens_from
md_get_many_rows_column_value_as_token c col_idx out_length = do
  acxt ← create_bulk_access_context c col_idx out_length
  guard (bit_and acxt.col_details (bit_or mdtc_idx_table mdtc_idx_coded) != 0)
  tokens_from out_length (ltb 1 out_length) acxt
