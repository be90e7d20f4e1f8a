-- ===== src/Coded.antt =====
-- Coded indices of src/dnmd/tables.c: a token of one of a few tables in one number, the place of the
-- table in a list in its low bits and the row above.
use dnmd.Base.{ℕ, zero, suc, ◌+◌, ◌-◌, ◌*◌, ◌/◌, ◌%◌, ◌^◌, bit_and, bit_or}
use dnmd.Base.{List, [], ◌∷◌, Option, none, some, Bool, true, false}
use dnmd.Base.{length, get_elem?, ltb, leb, ◌==◌, if◌then◌else◌, Outcome, ok, failed, fault, ◌>>=◌}
use dnmd.Flags.{mdtc_cimask}
use dnmd.Ids.{
  mdtid_assembly, mdtid_assembly_ref, mdtid_decl_security, mdtid_document, mdtid_event,
  mdtid_exported_type, mdtid_field, mdtid_file, mdtid_generic_param, mdtid_generic_param_constraint,
  mdtid_import_scope, mdtid_interface_impl, mdtid_local_constant, mdtid_local_scope,
  mdtid_local_variable, mdtid_manifest_resource, mdtid_member_ref, mdtid_method_def,
  mdtid_method_spec, mdtid_module, mdtid_module_ref, mdtid_param, mdtid_property,
  mdtid_stand_alone_sig, mdtid_type_def, mdtid_type_ref, mdtid_type_spec, mdtid_unused,
}
pub mod Tokens
pub mod RoundTrip
mod Runs

-- `lookup_len` is the list's length.
pub record CodedIndexEntry : Type 0 where
  pub lookup : List ℕ
  pub bit_encoding_size : ℕ

abbrev type_def_or_ref : List ℕ
type_def_or_ref = mdtid_type_def ∷ mdtid_type_ref ∷ mdtid_type_spec ∷ []

abbrev has_constant : List ℕ
has_constant = mdtid_field ∷ mdtid_param ∷ mdtid_property ∷ []

abbrev has_custom_attribute : List ℕ
has_custom_attribute =
    mdtid_method_def ∷ mdtid_field ∷ mdtid_type_ref ∷ mdtid_type_def ∷ mdtid_param
    ∷ mdtid_interface_impl ∷ mdtid_member_ref ∷ mdtid_module ∷ mdtid_decl_security ∷ mdtid_property
    ∷ mdtid_event ∷ mdtid_stand_alone_sig ∷ mdtid_module_ref ∷ mdtid_type_spec ∷ mdtid_assembly
    ∷ mdtid_assembly_ref ∷ mdtid_file ∷ mdtid_exported_type ∷ mdtid_manifest_resource
    ∷ mdtid_generic_param ∷ mdtid_generic_param_constraint ∷ mdtid_method_spec ∷ []

abbrev has_field_marshall : List ℕ
has_field_marshall = mdtid_field ∷ mdtid_param ∷ []

abbrev has_decl_security : List ℕ
has_decl_security = mdtid_type_def ∷ mdtid_method_def ∷ mdtid_assembly ∷ []

abbrev member_ref_parent : List ℕ
member_ref_parent =
    mdtid_type_def ∷ mdtid_type_ref ∷ mdtid_module_ref ∷ mdtid_method_def ∷ mdtid_type_spec ∷ []

abbrev has_semantics : List ℕ
has_semantics = mdtid_event ∷ mdtid_property ∷ []

abbrev method_def_or_ref : List ℕ
method_def_or_ref = mdtid_method_def ∷ mdtid_member_ref ∷ []

abbrev member_forwarded : List ℕ
member_forwarded = mdtid_field ∷ mdtid_method_def ∷ []

abbrev implementation : List ℕ
implementation = mdtid_file ∷ mdtid_assembly_ref ∷ mdtid_exported_type ∷ []

abbrev custom_attribute_type : List ℕ
custom_attribute_type =
    mdtid_unused ∷ mdtid_unused ∷ mdtid_method_def ∷ mdtid_member_ref ∷ mdtid_unused ∷ []

abbrev resolution_scope : List ℕ
resolution_scope = mdtid_module ∷ mdtid_module_ref ∷ mdtid_assembly_ref ∷ mdtid_type_ref ∷ []

abbrev type_or_method_def : List ℕ
type_or_method_def = mdtid_type_def ∷ mdtid_method_def ∷ []

abbrev has_custom_debug_information : List ℕ
has_custom_debug_information =
    mdtid_method_def ∷ mdtid_field ∷ mdtid_type_ref ∷ mdtid_type_def ∷ mdtid_param
    ∷ mdtid_interface_impl ∷ mdtid_member_ref ∷ mdtid_module ∷ mdtid_decl_security ∷ mdtid_property
    ∷ mdtid_event ∷ mdtid_stand_alone_sig ∷ mdtid_module_ref ∷ mdtid_type_spec ∷ mdtid_assembly
    ∷ mdtid_assembly_ref ∷ mdtid_file ∷ mdtid_exported_type ∷ mdtid_manifest_resource
    ∷ mdtid_generic_param ∷ mdtid_generic_param_constraint ∷ mdtid_method_spec ∷ mdtid_document
    ∷ mdtid_local_scope ∷ mdtid_local_variable ∷ mdtid_local_constant ∷ mdtid_import_scope ∷ []

unfoldable pub coded_index_map : List CodedIndexEntry
coded_index_map =
    record { lookup = type_def_or_ref; bit_encoding_size = 2 }
    ∷ record { lookup = has_constant; bit_encoding_size = 2 }
    ∷ record { lookup = has_custom_attribute; bit_encoding_size = 5 }
    ∷ record { lookup = has_field_marshall; bit_encoding_size = 1 }
    ∷ record { lookup = has_decl_security; bit_encoding_size = 2 }
    ∷ record { lookup = member_ref_parent; bit_encoding_size = 3 }
    ∷ record { lookup = has_semantics; bit_encoding_size = 1 }
    ∷ record { lookup = method_def_or_ref; bit_encoding_size = 1 }
    ∷ record { lookup = member_forwarded; bit_encoding_size = 1 }
    ∷ record { lookup = implementation; bit_encoding_size = 2 }
    ∷ record { lookup = custom_attribute_type; bit_encoding_size = 3 }
    ∷ record { lookup = resolution_scope; bit_encoding_size = 2 }
    ∷ record { lookup = type_or_method_def; bit_encoding_size = 1 }
    ∷ record { lookup = has_custom_debug_information; bit_encoding_size = 5 }
    ∷ []

-- `RidFromToken`, `ExtractTokenType` and `CreateTokenType`
abbrev pub rid_from_token : ℕ → ℕ
rid_from_token tk = bit_and tk 0x00ffffff

abbrev pub extract_token_type : ℕ → ℕ
extract_token_type tk = bit_and (tk / 2 ^ 24) 0xff

abbrev pub create_token_type : ℕ → ℕ
create_token_type table = bit_and (table * 2 ^ 24 % 2 ^ 32) 0xff000000

-- `ExtractCodedIndex` and `InsertCodedIndex`
abbrev pub extract_coded_index : ℕ → ℕ
extract_coded_index col = bit_and col mdtc_cimask / 2 ^ 24

abbrev pub insert_coded_index : ℕ → ℕ
insert_coded_index ci = bit_and (ci * 2 ^ 24 % 2 ^ 32) mdtc_cimask

-- `&coded_index_map[ci_idx]`; an index past the map is an assertion's failure.
unfoldable pub entry_of : ℕ → Outcome CodedIndexEntry
entry_of col_details = elim (get_elem? coded_index_map (extract_coded_index col_details)) [
  | none ↦ fault
  | some entry ↦ ok entry
]

-- The loops over `lookup`: the index of the first entry that is the table.
unfoldable pub find_table : ℕ → List ℕ → ℕ → Option ℕ
find_table table [] i = none
find_table table (t ∷ lookup) i = if t == table then some i else find_table table lookup (i + 1)

unfoldable pub compose_coded_index : ℕ → ℕ → Outcome ℕ
compose_coded_index tk col_details = do
  entry ← entry_of col_details
  elim (find_table (extract_token_type tk) entry.lookup 0) [
    | none ↦ failed
    | some i ↦ ok (bit_or (rid_from_token tk * 2 ^ entry.bit_encoding_size % 2 ^ 32) i)
  ]

-- The table and the row.
unfoldable pub decompose_coded_index : ℕ → ℕ → Outcome (ℕ × ℕ)
decompose_coded_index cidx col_details = do
  entry ← entry_of col_details
  let code = bit_and cidx (2 ^ entry.bit_encoding_size - 1)
  elim (get_elem? entry.lookup code) [
    | none ↦ failed
    | some table ↦ ok (table, cidx / 2 ^ entry.bit_encoding_size)
  ]

unfoldable pub is_coded_index_target : ℕ → ℕ → Outcome Bool
is_coded_index_target col_details table = do
  entry ← entry_of col_details
  elim (find_table table entry.lookup 0) [ none ↦ ok false | some i ↦ ok true ]
