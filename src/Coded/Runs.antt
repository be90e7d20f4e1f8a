-- ===== src/Coded/Runs.antt =====
-- Runs of the coded indices of src/dnmd/tables.c.
use dnmd.Base.{ℕ, ◌≡◌, arith, refl, ok, bit_or}
use dnmd.Coded.{
  compose_coded_index, decompose_coded_index, coded_index_map, create_token_type,
  extract_token_type, rid_from_token, entry_of, find_table,
}
use dnmd.Coded.RoundTrip.{decompose-compose, compose-decompose}

-- A column of TypeDefOrRef and the token of the fifth TypeRef.
abbrev type_def_or_ref_column : ℕ
type_def_or_ref_column = 0x18

abbrev fifth_type_ref : ℕ
fifth_type_ref = 0x01000005

decompose-compose_example :
    decompose_coded_index 0x15 type_def_or_ref_column
    ≡ ok (extract_token_type fifth_type_ref, rid_from_token fifth_type_ref)
unfolding compose_coded_index coded_index_map entry_of find_table
decompose-compose_example = decompose-compose fifth_type_ref type_def_or_ref_column 0x15 refl

compose-decompose_example :
    compose_coded_index (bit_or (create_token_type 1) 5) type_def_or_ref_column ≡ ok 0x15
unfolding decompose_coded_index coded_index_map entry_of
compose-decompose_example =
    compose-decompose 0x15 type_def_or_ref_column 1 5 refl (λ e. omega arith) (omega arith)
