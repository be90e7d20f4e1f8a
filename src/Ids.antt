-- ===== src/Ids.antt =====
-- The table ids of src/inc/dnmd.h, and the column flags and coded index ids of src/dnmd/internal.h,
-- of the build with portable PDB support.
use Prim.Native.Nat.{ℕ}

-- `mdtid_Unused` is -1; here it is its bit pattern.
abbrev pub mdtid_unused : ℕ
mdtid_unused = 0xffffffff

abbrev pub mdtid_module : ℕ
mdtid_module = 0x0

abbrev pub mdtid_type_ref : ℕ
mdtid_type_ref = 0x1

abbrev pub mdtid_type_def : ℕ
mdtid_type_def = 0x2

abbrev pub mdtid_field_ptr : ℕ
mdtid_field_ptr = 0x3

abbrev pub mdtid_field : ℕ
mdtid_field = 0x4

abbrev pub mdtid_method_ptr : ℕ
mdtid_method_ptr = 0x5

abbrev pub mdtid_method_def : ℕ
mdtid_method_def = 0x6

abbrev pub mdtid_param_ptr : ℕ
mdtid_param_ptr = 0x7

abbrev pub mdtid_param : ℕ
mdtid_param = 0x8

abbrev pub mdtid_interface_impl : ℕ
mdtid_interface_impl = 0x9

abbrev pub mdtid_member_ref : ℕ
mdtid_member_ref = 0xa

abbrev pub mdtid_constant : ℕ
mdtid_constant = 0xb

abbrev pub mdtid_custom_attribute : ℕ
mdtid_custom_attribute = 0xc

abbrev pub mdtid_field_marshal : ℕ
mdtid_field_marshal = 0xd

abbrev pub mdtid_decl_security : ℕ
mdtid_decl_security = 0xe

abbrev pub mdtid_class_layout : ℕ
mdtid_class_layout = 0xf

abbrev pub mdtid_field_layout : ℕ
mdtid_field_layout = 0x10

abbrev pub mdtid_stand_alone_sig : ℕ
mdtid_stand_alone_sig = 0x11

abbrev pub mdtid_event_map : ℕ
mdtid_event_map = 0x12

abbrev pub mdtid_event_ptr : ℕ
mdtid_event_ptr = 0x13

abbrev pub mdtid_event : ℕ
mdtid_event = 0x14

abbrev pub mdtid_property_map : ℕ
mdtid_property_map = 0x15

abbrev pub mdtid_property_ptr : ℕ
mdtid_property_ptr = 0x16

abbrev pub mdtid_property : ℕ
mdtid_property = 0x17

abbrev pub mdtid_method_semantics : ℕ
mdtid_method_semantics = 0x18

abbrev pub mdtid_method_impl : ℕ
mdtid_method_impl = 0x19

abbrev pub mdtid_module_ref : ℕ
mdtid_module_ref = 0x1a

abbrev pub mdtid_type_spec : ℕ
mdtid_type_spec = 0x1b

abbrev pub mdtid_impl_map : ℕ
mdtid_impl_map = 0x1c

abbrev pub mdtid_field_rva : ℕ
mdtid_field_rva = 0x1d

abbrev pub mdtid_enc_log : ℕ
mdtid_enc_log = 0x1e

abbrev pub mdtid_enc_map : ℕ
mdtid_enc_map = 0x1f

abbrev pub mdtid_assembly : ℕ
mdtid_assembly = 0x20

abbrev pub mdtid_assembly_processor : ℕ
mdtid_assembly_processor = 0x21

abbrev pub mdtid_assembly_os : ℕ
mdtid_assembly_os = 0x22

abbrev pub mdtid_assembly_ref : ℕ
mdtid_assembly_ref = 0x23

abbrev pub mdtid_assembly_ref_processor : ℕ
mdtid_assembly_ref_processor = 0x24

abbrev pub mdtid_assembly_ref_os : ℕ
mdtid_assembly_ref_os = 0x25

abbrev pub mdtid_file : ℕ
mdtid_file = 0x26

abbrev pub mdtid_exported_type : ℕ
mdtid_exported_type = 0x27

abbrev pub mdtid_manifest_resource : ℕ
mdtid_manifest_resource = 0x28

abbrev pub mdtid_nested_class : ℕ
mdtid_nested_class = 0x29

abbrev pub mdtid_generic_param : ℕ
mdtid_generic_param = 0x2a

abbrev pub mdtid_method_spec : ℕ
mdtid_method_spec = 0x2b

abbrev pub mdtid_generic_param_constraint : ℕ
mdtid_generic_param_constraint = 0x2c

abbrev pub mdtid_document : ℕ
mdtid_document = 0x30

abbrev pub mdtid_method_debug_information : ℕ
mdtid_method_debug_information = 0x31

abbrev pub mdtid_local_scope : ℕ
mdtid_local_scope = 0x32

abbrev pub mdtid_local_variable : ℕ
mdtid_local_variable = 0x33

abbrev pub mdtid_local_constant : ℕ
mdtid_local_constant = 0x34

abbrev pub mdtid_import_scope : ℕ
mdtid_import_scope = 0x35

abbrev pub mdtid_state_machine_method : ℕ
mdtid_state_machine_method = 0x36

abbrev pub mdtid_custom_debug_information : ℕ
mdtid_custom_debug_information = 0x37

-- `mdtid_End`, and the number of tables.
abbrev pub mdtable_max_count : ℕ
mdtable_max_count = 0x38
