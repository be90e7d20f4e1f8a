-- ===== src/Schema/Kinds.antt =====
-- The columns of each table: the `switch` of `initialize_table_details` and `table_column_counts` in
-- src/dnmd/tables.c. A list stands for the assignments to `column_details` in the order of the
-- column indexes of src/inc/dnmd.h, which is also the order of the assignments.
use dnmd.Base.{ℕ, List, [], ◌∷◌, ◌++◌, Option, none, some, get_elem?}
use dnmd.Ids.{
  mdtid_assembly_ref, mdtid_document, mdtid_event, mdtid_event_ptr, mdtid_field, mdtid_field_ptr,
  mdtid_generic_param, mdtid_import_scope, mdtid_local_constant, mdtid_local_variable,
  mdtid_method_def, mdtid_method_ptr, mdtid_module_ref, mdtid_param, mdtid_param_ptr,
  mdtid_property, mdtid_property_ptr, mdtid_type_def,
}
use dnmd.Flags.{
  mdci_custom_attribute_type, mdci_has_constant, mdci_has_custom_attribute,
  mdci_has_custom_debug_information, mdci_has_decl_security, mdci_has_field_marshall,
  mdci_has_semantics, mdci_implementation, mdci_member_forwarded, mdci_member_ref_parent,
  mdci_method_def_or_ref, mdci_resolution_scope, mdci_type_def_or_ref, mdci_type_or_method_def,
}

-- The right-hand sides: `mdtc_constant` of a width in bytes, the three heap indexes, and the calls of
-- `compute_table_index`, of that at a `get_target_table`, and of `compute_coded_index`.
pub data ColumnKind : Type 0 where
  constant : ℕ → ColumnKind
  string guid blob : ColumnKind
  table : ℕ → ColumnKind
  target : ℕ → ℕ → ColumnKind
  coded : ℕ → ColumnKind

abbrev kinds_from_0 : List (Option (List ColumnKind))
kinds_from_0 =
    -- Module
    some (constant 2 ∷ string ∷ guid ∷ guid ∷ guid ∷ [])
    -- TypeRef
    ∷ some (coded mdci_resolution_scope ∷ string ∷ string ∷ [])
    -- TypeDef
    ∷ some (
        constant 4
        ∷ string
        ∷ string
        ∷ coded mdci_type_def_or_ref
        ∷ target mdtid_field mdtid_field_ptr
        ∷ target mdtid_method_def mdtid_method_ptr
        ∷ [])
    -- FieldPtr
    ∷ some (table mdtid_field ∷ [])
    -- Field
    ∷ some (constant 2 ∷ string ∷ blob ∷ [])
    -- MethodPtr
    ∷ some (table mdtid_method_def ∷ [])
    -- MethodDef
    ∷ some (
        constant 4
        ∷ constant 2
        ∷ constant 2
        ∷ string
        ∷ blob
        ∷ target mdtid_param mdtid_param_ptr
        ∷ [])
    -- ParamPtr
    ∷ some (table mdtid_param ∷ [])
    -- Param
    ∷ some (constant 2 ∷ constant 2 ∷ string ∷ [])
    -- InterfaceImpl
    ∷ some (table mdtid_type_def ∷ coded mdci_type_def_or_ref ∷ [])
    -- MemberRef
    ∷ some (coded mdci_member_ref_parent ∷ string ∷ blob ∷ [])
    -- Constant
    ∷ some (constant 2 ∷ coded mdci_has_constant ∷ blob ∷ [])
    ∷ []

abbrev kinds_from_c : List (Option (List ColumnKind))
kinds_from_c =
    -- CustomAttribute
    some (coded mdci_has_custom_attribute ∷ coded mdci_custom_attribute_type ∷ blob ∷ [])
    -- FieldMarshal
    ∷ some (coded mdci_has_field_marshall ∷ blob ∷ [])
    -- DeclSecurity
    ∷ some (constant 2 ∷ coded mdci_has_decl_security ∷ blob ∷ [])
    -- ClassLayout
    ∷ some (constant 2 ∷ constant 4 ∷ table mdtid_type_def ∷ [])
    -- FieldLayout
    ∷ some (constant 4 ∷ table mdtid_field ∷ [])
    -- StandAloneSig
    ∷ some (blob ∷ [])
    -- EventMap
    ∷ some (table mdtid_type_def ∷ target mdtid_event mdtid_event_ptr ∷ [])
    -- EventPtr
    ∷ some (table mdtid_event ∷ [])
    -- Event
    ∷ some (constant 2 ∷ string ∷ coded mdci_type_def_or_ref ∷ [])
    -- PropertyMap
    ∷ some (table mdtid_type_def ∷ target mdtid_property mdtid_property_ptr ∷ [])
    -- PropertyPtr
    ∷ some (table mdtid_property ∷ [])
    -- Property
    ∷ some (constant 2 ∷ string ∷ blob ∷ [])
    -- MethodSemantics
    ∷ some (constant 2 ∷ table mdtid_method_def ∷ coded mdci_has_semantics ∷ [])
    ∷ []

abbrev kinds_from_19 : List (Option (List ColumnKind))
kinds_from_19 =
    -- MethodImpl
    some (table mdtid_type_def ∷ coded mdci_method_def_or_ref ∷ coded mdci_method_def_or_ref ∷ [])
    -- ModuleRef
    ∷ some (string ∷ [])
    -- TypeSpec
    ∷ some (blob ∷ [])
    -- ImplMap
    ∷ some (constant 2 ∷ coded mdci_member_forwarded ∷ string ∷ table mdtid_module_ref ∷ [])
    -- FieldRva
    ∷ some (constant 4 ∷ table mdtid_field ∷ [])
    -- ENCLog
    ∷ some (constant 4 ∷ constant 4 ∷ [])
    -- ENCMap
    ∷ some (constant 4 ∷ [])
    -- Assembly
    ∷ some (
        constant 4
        ∷ constant 2
        ∷ constant 2
        ∷ constant 2
        ∷ constant 2
        ∷ constant 4
        ∷ blob
        ∷ string
        ∷ string
        ∷ [])
    -- AssemblyProcessor
    ∷ some (constant 4 ∷ [])
    -- AssemblyOS
    ∷ some (constant 4 ∷ constant 4 ∷ constant 4 ∷ [])
    -- AssemblyRef
    ∷ some (
        constant 2
        ∷ constant 2
        ∷ constant 2
        ∷ constant 2
        ∷ constant 4
        ∷ blob
        ∷ string
        ∷ string
        ∷ blob
        ∷ [])
    ∷ []

abbrev kinds_from_24 : List (Option (List ColumnKind))
kinds_from_24 =
    -- AssemblyRefProcessor
    some (constant 4 ∷ table mdtid_assembly_ref ∷ [])
    -- AssemblyRefOS
    ∷ some (constant 4 ∷ constant 4 ∷ constant 4 ∷ table mdtid_assembly_ref ∷ [])
    -- File
    ∷ some (constant 4 ∷ string ∷ blob ∷ [])
    -- ExportedType
    ∷ some (constant 4 ∷ constant 4 ∷ string ∷ string ∷ coded mdci_implementation ∷ [])
    -- ManifestResource
    ∷ some (constant 4 ∷ constant 4 ∷ string ∷ coded mdci_implementation ∷ [])
    -- NestedClass
    ∷ some (table mdtid_type_def ∷ table mdtid_type_def ∷ [])
    -- GenericParam
    ∷ some (constant 2 ∷ constant 2 ∷ coded mdci_type_or_method_def ∷ string ∷ [])
    -- MethodSpec
    ∷ some (coded mdci_method_def_or_ref ∷ blob ∷ [])
    -- GenericParamConstraint
    ∷ some (table mdtid_generic_param ∷ coded mdci_type_def_or_ref ∷ [])
    ∷ none
    ∷ none
    ∷ none
    -- Document
    ∷ some (blob ∷ guid ∷ blob ∷ guid ∷ [])
    -- MethodDebugInformation
    ∷ some (table mdtid_document ∷ blob ∷ [])
    -- LocalScope
    ∷ some (
        table mdtid_method_def
        ∷ table mdtid_import_scope
        ∷ table mdtid_local_variable
        ∷ table mdtid_local_constant
        ∷ constant 4
        ∷ constant 4
        ∷ [])
    -- LocalVariable
    ∷ some (constant 2 ∷ constant 2 ∷ string ∷ [])
    -- LocalConstant
    ∷ some (string ∷ blob ∷ [])
    -- ImportScope
    ∷ some (table mdtid_import_scope ∷ blob ∷ [])
    -- StateMachineMethod
    ∷ some (table mdtid_method_def ∷ table mdtid_method_def ∷ [])
    -- CustomDebugInformation
    ∷ some (coded mdci_has_custom_debug_information ∷ guid ∷ blob ∷ [])
    ∷ []

unfoldable pub column_kinds : List (Option (List ColumnKind))
column_kinds = kinds_from_0 ++ (kinds_from_c ++ (kinds_from_19 ++ kinds_from_24))

-- `none` is the `default` of the `switch`.
unfoldable pub kinds_of : ℕ → Option (List ColumnKind)
unfolding column_kinds
kinds_of id = elim (get_elem? column_kinds id) [ none ↦ none | some kinds ↦ kinds ]

unfoldable pub table_column_counts : List ℕ
table_column_counts =
    5 ∷ 3 ∷ 6 ∷ 1 ∷ 3 ∷ 1 ∷ 6 ∷ 1 ∷ 3 ∷ 2 ∷ 3 ∷ 3 ∷ 3 ∷ 2 ∷ 3 ∷ 3 ∷ 2 ∷ 1 ∷ 2 ∷ 1 ∷ 3 ∷ 2 ∷ 1 ∷ 3
    ∷ 3 ∷ 3 ∷ 1 ∷ 1 ∷ 4 ∷ 2 ∷ 2 ∷ 1 ∷ 9 ∷ 1 ∷ 3 ∷ 9 ∷ 2 ∷ 4 ∷ 3 ∷ 5 ∷ 4 ∷ 2 ∷ 4 ∷ 2 ∷ 2 ∷ 0 ∷ 0 ∷ 0
    ∷ 4 ∷ 2 ∷ 6 ∷ 3 ∷ 2 ∷ 2 ∷ 2 ∷ 3 ∷ []
